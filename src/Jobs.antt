-- ===== src/Jobs.antt =====
-- app/static/js/jobs.js: the job store of a page and the two lists that show it.
pub mod Update
pub mod Surface
pub mod State
pub mod Store
pub mod Paging
pub mod Filter
pub mod Session
pub mod Lookup
pub mod Invariant
