-- ===== src/Budget.antt =====
-- internal/budget: the ceiling on unattended actions. A cap per pass and cluster, a cooldown per
-- target and a breaker per cluster, behind a state file.
pub mod Limits
pub mod State
pub mod Admit
pub mod Breaker
pub mod Runs
pub mod Tests
