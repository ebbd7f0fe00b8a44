-- ===== src/Console.antt =====
-- console/api/emunel_console/: the Console.
pub mod RateLimit
pub mod Volume
pub mod Configs
pub mod Policy
pub mod Editing
pub mod Deployments
pub mod Auth
pub mod Listing
