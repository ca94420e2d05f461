-- ===== src/Tests.antt =====
-- Runs of the model at concrete inputs.
pub mod Pipes
pub mod Frames
pub mod Regions
pub mod Queues
pub mod Election
pub mod Devices
pub mod Counters
pub mod Streams
pub mod Tokens
pub mod Packets
pub mod Files
pub mod Locks
pub mod Scheduling
pub mod Descriptors
pub mod RangeLocks
pub mod Polling
