-- ===== src/Cli.antt =====
-- The command line client (cli/src).
pub mod JobAttach
mod Tests
