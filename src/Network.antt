-- ===== src/Network.antt =====
-- Connections: what a client's socket delivers, and which connections are let in.
pub mod ReadLoop
pub mod Throttle
mod Examples
