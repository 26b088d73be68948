-- ===== src/Io.antt =====
-- hj/io: buffers.
pub mod ChainBuffer
pub mod DBuffer
