-- ===== src/Dht.antt =====
-- app/discovery/dht/routing.py: the routing table. A time is a number of ticks of the clock, which a
-- call of the table reads once. The dictionary of a bucket is a list, each contact under its own id.
pub mod Contact
pub mod Bucket
pub mod Table
pub mod Dictionary
pub mod Ids
pub mod Tiling
pub mod Halves
pub mod Placing
pub mod Adding
pub mod Outcome
pub mod Lifetime
pub mod Closest
pub mod Sorting
pub mod Nearest
