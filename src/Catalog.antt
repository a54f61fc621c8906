-- ===== src/Catalog.antt =====
-- catalog/: the curated programs and what installs and removes them.
mod Entry
mod Entries
pub mod Registry
pub mod Services
