-- ===== src/Worker/Usage.antt =====
-- The use of the store, and sums of sizes in int64.
use fetch_bilibili.Prelude.{ℕ, ◌+◌, ◌<◌, ◌≡◌, ◌∙◌, arith, List, [], ◌∷◌}
use fetch_bilibili.Prelude.Int.{pos, ◌+ℤ◌, i64, i64-id, i64_half}
use fetch_bilibili.World.{DiskFile, World}

-- The bytes of the files under the store root.
abbrev pub usage : List DiskFile → ℕ
usage [] = 0
usage (f ∷ rest) = f.size + usage rest

abbrev pub disk : World → List DiskFile
disk w = w.disk

pub add_pos : (a b : ℕ) → a + b < i64_half → i64 (pos a +ℤ pos b) ≡ pos (a + b)
unfolding ◌+ℤ◌
add_pos a b h = i64-id (pos a +ℤ pos b) (ground arith) ∙ ground arith
