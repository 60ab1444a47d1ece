-- ===== src/Tests.antt =====
-- The theorems at concrete inputs.
pub mod StorageTests
pub mod EntityTests
pub mod LogTests
pub mod BatchTests
pub mod CommitTests
pub mod SparseTests
pub mod SchemaTests
pub mod FrameTests
pub mod ReplicationTests
pub mod ClientTests
pub mod FileTests
