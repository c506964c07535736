-- ===== src/Audio.antt =====
-- src/audiostreamer/audiostreamer.cpp: the audio streamer.
pub mod Args
pub mod Record
pub mod Streams
pub mod Serve
pub mod Leak
pub mod Streamer
mod Tests
