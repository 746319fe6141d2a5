-- ===== src/Usb.antt =====
-- Kernel/usb: the containers and the memory of the USB driver.
pub mod ArrayMap
pub mod Alloc
pub mod Ring
pub mod DeviceManager
mod Tests
