-- ===== src/Repo.antt =====
-- repository/repos.go and repository/postgres/*.go: the tables and what is done to them.
pub mod Store
pub mod Table
pub mod Join
pub mod Lookup
pub mod Upserted
pub mod Extends
pub mod Growing
pub mod Tables
pub mod Ensure
pub mod Find
pub mod Reads
pub mod Messages
