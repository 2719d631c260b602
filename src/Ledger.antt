-- ===== src/Ledger.antt =====
-- The audit package: internal/audit/ledger.
pub mod Event
pub mod Chain
pub mod Projection
pub mod Inspection
pub mod Credential
