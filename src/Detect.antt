-- ===== src/Detect.antt =====
-- internal/detect: a snapshot becomes a list of findings, the most urgent first.
pub mod Finding
pub mod Rules
pub mod Events
pub mod Tests
