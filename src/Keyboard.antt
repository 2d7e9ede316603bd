-- ===== src/Keyboard.antt =====
-- nre/services/keyboard/HostKeyboard.cc: the driver of the keyboard and the mouse. A byte that the
-- device sends comes with the bit of the status register that tells the mouse's bytes from the
-- keyboard's; when no byte is left, the status has no data.
pub mod Keys
pub mod Scancodes
pub mod Scan
pub mod Mouse
mod Tests
