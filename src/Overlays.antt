-- ===== src/Overlays.antt =====
-- src/overlays/: the structure of the repository beyond single files.
pub mod Common
pub mod Clusters
pub mod Graph
pub mod Front
pub mod Traversal
pub mod Components
pub mod Partition
