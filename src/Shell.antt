-- ===== src/Shell.antt =====
-- The shell, shell/shell.c: its check of addresses, its command line and its commands.
pub mod Address
pub mod Argv
pub mod Commands
pub mod Dispatch
pub mod Line
pub mod Loop
pub mod Messages
mod Tests
pub mod Transcript
