-- ===== src/Worker.antt =====
-- worker/emunel_worker/: the Worker, which runs the Cores of a node.
pub mod Ports
pub mod Driver
pub mod Node
pub mod Process
pub mod Docker
pub mod Launching
