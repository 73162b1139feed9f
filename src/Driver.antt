-- ===== src/Driver.antt =====
-- The device drivers.
pub mod Console
pub mod Uart
pub mod Virtio
