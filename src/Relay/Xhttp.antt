-- ===== src/Relay/Xhttp.antt =====
-- core/emunel_core/relay/xhttp.py: the xHTTP transport.
pub mod Packets
pub mod Sessions
pub mod Upload
pub mod Streaming
