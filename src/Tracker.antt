-- ===== src/Tracker.antt =====
-- src/core/tracker: the clients of trackers, which tell where the peers of a torrent are.
pub mod Error
pub mod Udp
pub mod Factory
pub mod Manager
pub mod Http
