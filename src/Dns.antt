-- ===== src/Dns.antt =====
-- The local DNS-over-HTTPS resolver, src-tauri/src/dns_resolver.rs.
pub mod Names
pub mod Resolver
pub mod Resolve
pub mod Handlers
mod Tests
