-- ===== src/Execute.antt =====
-- internal/execute: an approved action is checked again and sent to the cluster.
pub mod Index
pub mod Preconditions
pub mod PreState
pub mod Observe
pub mod Run
pub mod Licensed
pub mod Paths
pub mod Attempts
pub mod Made
pub mod Marked
pub mod Unchanged
pub mod Tests
