-- ===== src/Util.antt =====
-- hj/util: text and life cycle helpers.
pub mod StringUtil
