-- ===== src/Relay.antt =====
-- core/emunel_core/relay/: what the transports share, and the transports.
pub mod Gate
pub mod Traffic
pub mod Wire
pub mod Trojan
pub mod Vless
pub mod Xhttp
pub mod Shadowsocks
pub mod Vmess
