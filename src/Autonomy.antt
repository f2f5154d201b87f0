-- ===== src/Autonomy.antt =====
-- internal/autonomy: may one proposed action run without a human? A pure decision over the rules an
-- operator wrote and the evidence a ledger gives.
pub mod Verdict
pub mod Rule
pub mod Request
pub mod Decide
