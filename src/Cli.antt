-- ===== src/Cli.antt =====
-- cmd/mmar/main.go: the command line of the program.
pub mod Flags
pub mod Main
