-- ===== src/Proxy.antt =====
-- The proxy of every network request: app/proxy_credentials.h and app/network_proxy.h.
pub mod Credentials
pub mod Scalars
pub mod Options
pub mod Closed
