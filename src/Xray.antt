-- ===== src/Xray.antt =====
-- internal/xray: the adapter that runs xray as a child process, one module for each part of it.
pub mod Process
pub mod Metrics
pub mod Outbound
pub mod Generate
