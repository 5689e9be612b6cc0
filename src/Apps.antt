-- ===== src/Apps.antt =====
-- The command line of apps/cmd: a line that is typed (Line) is split into words, of which the first
-- names a command (Commands), which calls a table of operations (Ops).
pub mod Line
pub mod Ops
pub mod Shell
pub mod Fine
pub mod Connecting
pub mod Files
pub mod Values
pub mod Help
pub mod Commands
pub mod Config
pub mod Program
pub mod Prober
