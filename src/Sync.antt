-- ===== src/Sync.antt =====
-- hj/sync: containers and counters shared by threads.
pub mod Counter
pub mod StripedMap
