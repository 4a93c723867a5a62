-- ===== src/Tests.antt =====
-- Concrete clusters, servers and clients, and the theorems at them.
mod Client
mod Samples
mod Objects
mod Store
mod Plan
mod Names
mod Unread
mod Metrics
mod Autoscaler
mod DatabaseServer
mod Cluster
mod Refusal
mod Selectors
mod Backup
mod Guards
mod Progress
mod Repeat
mod Operator
mod Manager
