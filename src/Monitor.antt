-- ===== src/Monitor.antt =====
-- scripts/plex-health-monitor.py: the watchdog that polls Plex's scan health, alerts and restarts.
-- `State` holds the locals of `main`, `cycle` is one turn of its loop. Times are in milliseconds;
-- a lag below zero (a clock set back) reads as zero here, which every test of it treats alike.
-- The diagnostic line that each poll prints and the delivery of a notice are left out.
mod Data
mod Loop
pub mod Cooldown
pub mod Alerts
pub mod Quiet
mod Examples
pub use Data.*
unfoldable pub use Loop.*
