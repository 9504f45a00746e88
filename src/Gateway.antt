-- ===== src/Gateway.antt =====
-- gateway.go: the Caddy handler, its routes, its operator connection and its requests.
pub mod Cleanup
pub mod Dispatch
pub mod Failures
pub mod Lifecycle
pub mod Permissions
pub mod Tests
pub mod Provision
pub mod Routing
pub mod Serve
pub mod Stream
