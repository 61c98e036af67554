-- ===== src/Domain.antt =====
-- The contracts of week03_guarded-harness/src/guarded_harness/domain.py.
pub mod Status
pub mod ErrorCode
pub mod Models
pub mod Decimal
