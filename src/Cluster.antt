-- ===== src/Cluster.antt =====
-- The cluster as the frontend sees it (services/cluster.tsx).
pub mod Status
pub mod Nodes
pub mod Info
pub mod Config
pub mod Api
pub mod Session
pub mod Provider
