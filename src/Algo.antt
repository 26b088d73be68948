-- ===== src/Algo.antt =====
-- hj/algo: the algorithms of the library.
pub mod BloomFilter
pub mod Crc
pub mod Skiplist
pub mod Uuid
