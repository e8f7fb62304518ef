-- ===== src/Presenter/ReadOnly.antt =====
-- What the presenter leaves of the database.
pub mod Searching
pub mod Handlers
