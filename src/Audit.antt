-- ===== src/Audit.antt =====
-- The proof-carrying dispatch log: `redact_grants`, `verify_chain` and `AuditLog` of agent.py, and the
-- service's monitor of it.
pub mod Redact
pub mod Chain
pub mod Reader
