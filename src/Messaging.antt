-- ===== src/Messaging.antt =====
-- kernel/src: what the kernel sends and takes in messages.
pub mod Mqtt
