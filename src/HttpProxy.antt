-- ===== src/HttpProxy.antt =====
-- internal/server/httpproxy: the HTTP proxy server, one module for each part of it.
pub mod Header
pub mod Credentials
pub mod Policy
pub mod Rendezvous
pub mod Attempts
pub mod Connect
pub mod Forward
