-- ===== src/Tests.antt =====
-- Runs of the definitions at concrete inputs.
mod Data
mod Api
mod Choice
mod Limits
mod Runs
mod Agents
mod Probes
mod Events
mod Systems
mod Hosts
mod Executors
mod Evidences
mod Programs
mod Providers
mod Policies
mod Gates
