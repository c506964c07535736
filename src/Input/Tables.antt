-- ===== src/Input/Tables.antt =====
-- The tables of src/vncflinger/InputDevice.cpp, from `keysymToAscii` to `qwerty`.
mod Latin
mod Special
mod Symbol
unfoldable pub use Latin.{keysym_to_ascii, dead_chars_to_alt_char, latin1_to_dead_chars, qwerty}
unfoldable pub use Special.{spicial_keysym_to_direct_key}
unfoldable pub use Symbol.{symbol_keysym_to_direct_key}
