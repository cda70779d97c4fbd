-- ===== src/Shell.antt =====
-- src/remote_shell.rs: commands for a remote POSIX shell.
pub mod Words
pub mod Commands
pub mod Nul
pub mod Quoting
pub mod Launcher
pub mod Names
pub mod Replies
pub mod LoginReply
