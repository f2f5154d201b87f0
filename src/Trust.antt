-- ===== src/Trust.antt =====
-- The trust ledger of internal/trust.
pub mod Entry
pub mod Ledger
pub mod Derive
pub mod Quarantine
pub mod Tests
