-- ===== src/Cmd.antt =====
-- cmd/*/main.go: what the three programs do with their configuration and their arguments before the
-- monitors run, and the repair of block timestamps. Starting servers and connections is left out.
pub mod Bridges
pub mod Reprocess
pub mod Timestamps
