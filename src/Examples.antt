-- ===== src/Examples.antt =====
-- The theorems at concrete inputs: each example applies one of them where its hypotheses hold.
pub mod Data
mod Store
mod Network
mod Threads
mod App
mod Ota
mod Audio
mod Processor
mod Devices
mod NoTopic
