-- ===== src/Download.antt =====
-- The download engine: app/download.
pub mod Block
pub mod Piece
pub mod Endgame
pub mod Pipeline
pub mod Selector
pub mod Scheduler
