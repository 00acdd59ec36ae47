-- ===== src/Application.antt =====
-- application.cc and application.h: the device state machine, its audio queues and its task queue.
pub mod State
pub mod Audio
pub mod Device
pub mod Handlers
pub mod Bounds
pub mod Transitions
pub mod Coherent
pub mod Start
pub mod Session
pub mod EventLoop
