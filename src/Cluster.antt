-- ===== src/Cluster.antt =====
-- services/ray/deployments/controller/cluster: nodes, their resources, and placement.
pub mod Resources
pub mod Deployment
pub mod Replicas
pub mod Node
pub mod Placement
pub mod Placing
pub mod Cluster
