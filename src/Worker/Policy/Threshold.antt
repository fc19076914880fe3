-- ===== src/Worker/Policy/Threshold.antt =====
-- What the storage policy asks of a cleanup.
use fetch_bilibili.Prelude.{
  ℕ, suc, ◌-◌, ◌*◌, ◌/◌, ◌<◌, ◌≡◌, refl, ◌∙◌, arith, Bool, ◌⊎◌, inl, inr, Bool-cases, ltb, ◌&&◌,
}
use fetch_bilibili.Prelude.Int.{ℤ, pos, negsuc, ◌-ℤ◌, ◌*ℤ◌, ◌≤ℤ◌, i64, i64-id, i64_half}
use fetch_bilibili.Worker.Handler.{Handler}
use fetch_bilibili.Worker.Policy.{set_storage_policy, threshold, cleanup_target, safe_bytes}

sub_pos : (a b : ℕ) → b < a → a < i64_half → i64 (pos a -ℤ pos b) ≡ pos (a - b)
unfolding ◌-ℤ◌
sub_pos a b h k = i64-id (pos a -ℤ pos b) (ground arith) ∙ ground arith

-- Whether there is something to free.
abbrev pub IsTarget : Handler → ℕ → ℤ → Type 0
IsTarget h used target =
    ((target ≡ pos 0) × ((threshold h ≤ℤ pos 0) ⊎ (pos used ≤ℤ threshold h)))
    ⊎ ((limit : ℕ) × (threshold h ≡ pos limit)
        × (0 < limit)
        × (limit < used)
        × (target ≡ pos (used - limit)))

cases_of_threshold :
    (h : Handler) (used : ℕ) (t : ℤ)
    → threshold h ≡ t
    → used < i64_half
    → IsTarget h used (cleanup_target h (pos used))
unfolding cleanup_target
cases_of_threshold h used (negsuc t) e u = inl (ground arith, ground arith)
cases_of_threshold h used (pos t) e u = elim (Bool-cases (ltb 0 t && ltb t used)) [
  | inl over ↦ inr (t, e, ground arith, ground arith, ground (arith, sub_pos used t))
  | inr under ↦ inl (ground arith, ground arith)
]

-- The target is 0 and no limit is set or the use does not exceed the threshold; or the threshold
-- is positive and below what is used, and the target is the difference.
pub cleanup_target_lem :
    (h : Handler) (used : ℕ) → used < i64_half → IsTarget h used (cleanup_target h (pos used))
cleanup_target_lem h used u = cases_of_threshold h used (threshold h) refl u

nine_tenths : (n : ℕ) → 0 < n → n * 9 < i64_half → safe_bytes (pos n) (pos 0) ≡ pos (n * 9 / 10)
unfolding safe_bytes ◌*ℤ◌
nine_tenths n h k = ground (arith, i64-id (pos n *ℤ pos 9) (ground arith))

-- Without a safe limit of its own, a limit of at least 2 and at most about 10^18 bytes gives the
-- threshold at nine tenths of it; with such a limit, a positive safe limit is the threshold itself.
pub set_storage_policy-threshold :
    (h : Handler) (max safe : ℕ) (rare : Bool)
    → 1 < max
    → max * 9 < i64_half
    → (threshold (set_storage_policy (pos max) (pos 0) rare h) ≡ pos (max * 9 / 10))
      × (threshold (set_storage_policy (pos max) (pos (suc safe)) rare h) ≡ pos (suc safe))
unfolding set_storage_policy threshold
set_storage_policy-threshold h max safe rare m o =
    (rw (nine_tenths max (omega arith) o) (ground arith), ground arith)
