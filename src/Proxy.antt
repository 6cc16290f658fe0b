-- ===== src/Proxy.antt =====
-- internal/proxy: matching, the flow and its addons, the connection gate and the listeners.
pub mod Matching
pub mod Flow
pub mod HostGate
pub mod Pipeline
pub mod Socks
pub mod Socks4
pub mod Tunnel
pub mod Addons
pub mod Udp
