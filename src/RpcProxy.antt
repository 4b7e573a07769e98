-- ===== src/RpcProxy.antt =====
-- The caching proxy of rpc-proxy/src.
pub mod Retry
pub mod Crates
pub mod Encoding
pub mod Paths
pub mod Cache
pub mod Web
pub mod Words
pub mod Handler
