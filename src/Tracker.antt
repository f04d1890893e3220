-- ===== src/Tracker.antt =====
-- app/tracker: the packets of a UDP tracker.
pub mod Udp
