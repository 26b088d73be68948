-- ===== src/Algo/Crc.antt =====
-- hj/algo/crc32.h and hj/algo/crc16.h: check sums by table. `Serial` has the reference that goes bit by
-- bit.
pub mod Table
pub mod Crc32
pub mod Crc16
pub mod Serial
pub mod Xmodem
pub mod Lossless
pub mod Resume
mod Tests
