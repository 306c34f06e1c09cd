-- ===== src/Tests.antt =====
-- Concrete runs, and the theorems at concrete inputs.
mod Pieces
mod Messages
mod Disks
mod Downloads
mod Managers
mod Runs
mod Connections
mod Mains
mod Trackers
mod Http
mod Torrents
mod Writers
