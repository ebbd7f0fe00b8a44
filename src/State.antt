-- ===== src/State.antt =====
-- core/emunel_core/state.py: the stores of the Core.
pub mod Link
pub mod Links
pub mod Stats
pub mod Store
pub mod Saver
pub mod Speed
pub mod Connections
