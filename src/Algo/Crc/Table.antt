-- ===== src/Algo/Crc/Table.antt =====
-- hj/algo/crc32.h and hj/algo/crc16.h: reading a table.
use high_jump.Common.{ℕ, zero, suc, List, [], ◌∷◌}

-- `table[i]`; the tables have 256 entries, and no index is above 255.
unfoldable pub entry : List ℕ → ℕ → ℕ
entry [] i = 0
entry (x ∷ xs) zero = x
entry (x ∷ xs) (suc i) = entry xs i
