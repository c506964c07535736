-- ===== src/Sockets.antt =====
-- src/audiostreamer/socketmanager.{h,cpp} and the listeners of src/vncflinger/AndroidSocket.{h,cpp}.
pub mod Net
pub mod Create
pub mod Path
pub mod Closed
pub mod Unix
pub mod Listeners
pub mod Send
pub mod Delivery
mod Tests
