-- ===== src/Examples.antt =====
-- The theorems at concrete inputs.
mod Readers
mod Wire
mod Sessions
mod Pieces
mod Writes
mod Torrents
mod Bencodes
mod Nodes
mod Trackers
mod Paths
mod Rarity
mod Schedules
mod Uploads
