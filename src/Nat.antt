-- ===== src/Nat.antt =====
-- pkg/nat: analyze.go (Analyze, Resolved), tools.go and nat.go (Ports, Hole), service_simple.go
-- (Detect), service_stun.go (Stun).
pub mod Analyze
pub mod Resolved
pub mod Ports
pub mod Detect
pub mod Hole
pub mod Stun
pub mod Tests
