-- ===== src/Correlate.antt =====
-- internal/correlate: findings with one cause become one incident.
pub mod UnionFind
pub mod Edges
pub mod Groups
pub mod Incident
pub mod Tests
