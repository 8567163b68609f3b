-- ===== src/ReverseProxy.antt =====
-- applications/reverse-proxy: the connection pool, the connectors and the two engines.
pub mod Pool
pub mod Engine
pub mod Exchange
pub mod Command
pub mod Sharing
