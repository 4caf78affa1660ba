-- ===== src/Proxy.antt =====
-- proxy/proxy.go: the handler of a query, and the upstream resolvers that it tries.
pub mod Upstream
pub mod Handler
pub mod Sample
mod Tests
