-- ===== src/Cli.antt =====
-- src/cli: how the arguments of a command are read.
pub mod Options
pub mod CommandPath
