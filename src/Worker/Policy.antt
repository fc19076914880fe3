-- ===== src/Worker/Policy.antt =====
-- internal/worker/handler.go: SetStoragePolicy, SetCleanupRetention, cleanupTarget and percent.
use fetch_bilibili.Prelude.{ℕ, suc, ◌/◌, Bool, ◌&&◌, if◌then◌else◌}
use fetch_bilibili.Prelude.Int.{ℤ, pos, negsuc, ◌-ℤ◌, ◌*ℤ◌, leb_ℤ, ltb_ℤ, i64}
use fetch_bilibili.Worker.Handler.{Handler}
pub mod Threshold

-- -n, and Go's division by a positive number, which rounds towards 0.
abbrev pub neg : ℕ → ℤ
neg n = pos 0 -ℤ pos n

abbrev pub quotient : ℤ → ℕ → ℤ
quotient (pos n) d = pos (n / d)
quotient (negsuc n) d = neg (suc n / d)

-- The threshold that SetStoragePolicy stores for the given limits.
unfoldable pub safe_bytes : ℤ → ℤ → ℤ
safe_bytes max safe =
    if leb_ℤ safe (pos 0) && ltb_ℤ (pos 0) max then quotient (i64 (max *ℤ pos 9)) 10 else safe

unfoldable pub set_storage_policy : ℤ → ℤ → Bool → Handler → Handler
unfolding safe_bytes
set_storage_policy max safe keep_out_of_print h = record h {
  storage_max = max;
  storage_safe = safe_bytes max safe;
  keep_rare = keep_out_of_print;
}

abbrev pub hour : ℤ
hour = pos 3600000000000

unfoldable pub set_cleanup_retention : ℤ → Handler → Handler
set_cleanup_retention hours h = record h {
  cleanup_retention = if leb_ℤ hours (pos 0) then pos 0 else i64 (hours *ℤ hour);
}

unfoldable pub threshold : Handler → ℤ
threshold h = if leb_ℤ h.storage_safe (pos 0) then h.storage_max else h.storage_safe

-- How many bytes to free when so many are used; 0 for none.
unfoldable pub cleanup_target : Handler → ℤ → ℤ
cleanup_target h used =
    if leb_ℤ (threshold h) (pos 0)
    then pos 0
    else if leb_ℤ used (threshold h)
    then pos 0
    else i64 (used -ℤ threshold h)

-- The share of the limit that is used, in percent. `max` is positive where Go divides.
abbrev divide : ℤ → ℤ → ℤ
divide a (pos d) = quotient a d
divide a (negsuc d) = pos 0

unfoldable pub percent : ℤ → ℤ → ℤ
percent used max =
    if leb_ℤ max (pos 0)
    then pos 0
    else (let p = divide (i64 (used *ℤ pos 100)) max in
        if ltb_ℤ p (pos 0) then pos 0 else if ltb_ℤ (pos 100) p then pos 100 else p)
