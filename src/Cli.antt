-- ===== src/Cli.antt =====
-- The command line (internal/cli).
pub mod Parser
