-- ===== src/Presenter.antt =====
-- presenter/: the HTTP views of what the monitor has recorded. A handler is what it renders: `ok`
-- with the value that render.JSON gets, `err` with what render.Error gets. The JSON itself, the
-- routes of chi and the logging are libraries'.
pub mod Types
pub mod Events
pub mod Search
pub mod Bridges
pub mod Signers
pub mod Unsigned
pub mod Filters
pub mod ReadOnly
