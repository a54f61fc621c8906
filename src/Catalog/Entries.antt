-- ===== src/Catalog/Entries.antt =====
-- The modules of catalog/entries/, one for each category.
pub mod Monitoring
pub mod Notifications
pub mod IndexerCompletion
pub mod LibraryQuality
pub mod HouseholdAccess
pub mod DockerHost
pub mod Security
pub mod Media
pub mod BrowserGames
pub mod Retroarch
