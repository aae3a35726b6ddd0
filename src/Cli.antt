-- ===== src/Cli.antt =====
-- The command line of fat32/src/main.rs: paths, the words of a line, what is printed and the
-- host's files, the commands of the shell and its loop, the arguments and `main`.
pub mod Path
pub mod Host
pub mod Words
pub mod Shell
pub mod Arguments
pub mod Main
mod Witnesses
mod Tests
