-- ===== src/Api.antt =====
-- The API package, api/v1: the persisted types, the transition table, validation, conditions.
pub mod Types
pub mod Status
pub mod Validate
pub mod Condition
