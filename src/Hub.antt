-- ===== src/Hub.antt =====
-- pkg/hub: the sessions and the punching of hub.go, the login and the server of hub_tcp.go, and the
-- node's side in exchanger.go.
pub mod Sessions
pub mod Login
pub mod Server
pub mod Punch
pub mod Handlers
pub mod Requests
pub mod Service
pub mod Exchanger
pub mod Tests
