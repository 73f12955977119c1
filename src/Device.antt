-- ===== src/Device.antt =====
-- pkg/device: the TUN device of tun.go with its set-up in tun_linux.go, and the NAT rules of rule.go.
pub mod Tun
pub mod Setup
pub mod Rules
pub mod Tests
