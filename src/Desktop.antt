-- ===== src/Desktop.antt =====
-- src/vncflinger/AndroidDesktop.{h,cpp}: the desktop between the RFB server, the virtual display, the
-- frame buffer and the input device.
pub mod State
pub mod Size
pub mod InStep
pub mod Listening
pub mod Layout
pub mod Running
pub mod Frames
pub mod History
pub mod Calls
pub mod Steps
pub mod Wake
pub mod Devices
pub mod Drawn
pub mod Samples
mod Tests
pub mod Viewer
pub mod Pointer
pub mod Server
