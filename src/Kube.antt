-- ===== src/Kube.antt =====
-- internal/kube: the transports that stand between a client and the cluster.
pub mod Transport
pub mod Scoped
pub mod Tests
