-- ===== src/Controller.antt =====
-- The controller package, internal/controller.
pub mod Node
pub mod Scoring
pub mod Backoff
pub mod Selection
pub mod Safety
pub mod Env
pub mod Recovery
pub mod Reconcile
pub mod Watches
