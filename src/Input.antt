-- ===== src/Input.antt =====
-- src/vncflinger/InputDevice.{h,cpp}: the virtual input device.
pub mod Codes
pub mod Kernel
pub mod Tables
pub mod Inject
pub mod Fds
pub mod Writes
pub mod Keyboard
pub mod Pointer
pub mod Lifecycle
pub mod Session
pub mod Taken
mod Tests
