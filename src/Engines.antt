-- ===== src/Engines.antt =====
-- engines/: the parts of the engines package.
pub mod Fec
pub mod Coalescing
pub mod Pipeline
pub mod StateStore
