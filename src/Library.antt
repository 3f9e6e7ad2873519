-- ===== src/Library.antt =====
-- The user library.
pub mod Strings
pub mod Args
pub mod Pipe
pub mod Printing
pub mod Fd
pub mod Fork
mod Examples
