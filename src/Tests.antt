-- ===== src/Tests.antt =====
-- Concrete nodes, queues and evaluators, and the theorems at work on them.
pub mod Samples
pub mod Nodes
pub mod Queues
pub mod Evaluators
pub mod Worlds
pub mod Clusters
pub mod Processors
pub mod Sandboxes
pub mod Schedules
pub mod Controllers
pub mod Dispatchers
pub mod ValueCaches
