-- ===== src/Main.antt =====
-- src/vncflinger/main.cpp: the arguments, the service and the JNI calls.
pub mod Arguments
pub mod Reading
pub mod Service
pub mod Loop
pub mod Counts
pub mod Ends
pub mod Process
mod Tests
