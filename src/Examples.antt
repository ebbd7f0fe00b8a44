-- ===== src/Examples.antt =====
-- The theorems at concrete inputs, and runs of the definitions.
mod Fixtures
mod Gates
mod Limits
mod Headers
mod Packets
mod Streams
mod Limiter
mod Sessions
mod Restart
mod Speeds
mod Uploads
mod Configs
mod Tunnels
mod Deploys
mod Workers
mod Engines
mod Auth
mod Listing
mod Streaming
