-- ===== src/Tests.antt =====
-- The theorems at concrete inputs, one module for each part of the program.
mod Pools
mod Logs
mod Configs
mod Sessions
mod Requests
mod Sources
mod Statuses
mod Nodes
mod Xrays
mod Updates
