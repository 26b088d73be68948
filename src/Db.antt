-- ===== src/Db.antt =====
-- hj/db: database connections.
pub mod ConnPool
