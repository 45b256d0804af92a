-- ===== src/Mapper.antt =====
-- The management application: the applications, processors and tasks of a cluster, and the clusters.
pub mod Processors
pub mod Clusters
pub mod Applications
pub mod Local
