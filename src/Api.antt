-- ===== src/Api.antt =====
-- core/emunel_core/app.py: the management API of the Core.
pub mod Quota
pub mod Links
