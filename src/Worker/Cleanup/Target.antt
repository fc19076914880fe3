-- ===== src/Worker/Cleanup/Target.antt =====
-- A cleanup that succeeds has brought the use of the store down to the threshold.
use package.text.Mathlib.Text.{◌==◌ as str_eq}
use fetch_bilibili.Prelude.{
  ℕ, ◌+◌, ◌-◌, ◌≤◌, ◌<◌, ◌≡◌, refl, ap, arith, not, List, [], ◌∷◌, ◌||◌, Bool-cases, ◌⊎◌, inl, inr,
}
use fetch_bilibili.Prelude.Int.{ℤ, pos, negsuc, ◌-ℤ◌, ◌≤ℤ◌, leb_ℤ, i64, i64_half}
use fetch_bilibili.World.{
  Error, too_few_candidates, Result, ok, err, World, M, next, throw, now, ◌>>=◌,
}
use fetch_bilibili.Repo.Models.{CleanupCandidate, CleanupCandidateFilter}
use fetch_bilibili.Worker.Handler.{Handler}
use fetch_bilibili.Worker.Snapshot.{scan_storage_usage, seed_storage_snapshot}
use fetch_bilibili.Effects.{Keeps, Keeps-call, Keeps-now, disk-IsStore}
use fetch_bilibili.Worker.Policy.{threshold, cleanup_target}
use fetch_bilibili.Worker.Policy.Threshold.{IsTarget, cleanup_target_lem}
use fetch_bilibili.Worker.Usage.{disk, usage, add_pos}
use fetch_bilibili.Worker.Snapshot.Scan.{
  StoreIsThere, scan_storage_usage_lem, scan_storage_usage-Keeps, seed_storage_snapshot-Keeps,
  publish_storage_changed-Keeps,
}
use fetch_bilibili.Worker.Deletion.{delete_cleanup_candidate}
use fetch_bilibili.Worker.Deletion.Freed.{FreesFor, delete_cleanup_candidate-Frees}
use fetch_bilibili.Worker.Cleanup.{
  Progress, no_progress, add_progress, clean, conclude, clean_from, StableSort, clean_sorted,
  clean_listed, clean_candidates, clean_to_target, handle_cleanup,
}
use fetch_bilibili.Worker.Ranking.{less_cleanup_candidate, filter_cleanup_candidates}
use fetch_bilibili.Repo.Videos.{list_cleanup_candidates}

-- The bytes counted as freed so far have left the disk.
pub record Counted (p : Progress) (w : World) (start : ℕ) : Type 0 where
  pub freed : ℕ
  pub counts : p.freed_bytes ≡ pos freed
  pub left : freed + usage w.disk ≤ start

add_progress-Counted :
    (r : Result (ℤ × ℤ × ℤ)) (p : Progress) (w w' : World) (start : ℕ)
    → start < i64_half
    → Counted p w start
    → FreesFor r (usage w.disk) (usage w'.disk)
    → Counted (add_progress r p) w' start
add_progress-Counted (err e) p w w' start b c f = record {
  freed = c.freed;
  counts = c.counts;
  left = omega (arith, c.left);
}
add_progress-Counted (ok (negsuc n, rows, rare)) p w w' start b c f = absurd f
add_progress-Counted (ok (pos n, rows, rare)) p w w' start b c f = record {
  freed = c.freed + n;
  counts = rw c.counts (add_pos c.freed n (omega (arith, c.left)));
  left = omega (arith, c.left);
}

pub clean-Counted :
    (h : Handler) (target : ℤ) (cs : List CleanupCandidate) (p : Progress) (w : World) (start : ℕ)
    → start < i64_half
    → Counted p w start
    → Counted (clean h target cs p w).0 (clean h target cs p w).1 start
unfolding clean
clean-Counted h target [] p w start b c = c
clean-Counted h target (k ∷ rest) p w start b c = elim (Bool-cases (leb_ℤ target p.freed_bytes)) [
  | inl done ↦ rw (done, clean) c
  | inr more ↦
      rw (more, clean)
        (clean-Counted h target rest (add_progress (delete_cleanup_candidate h k w).0 p)
          (delete_cleanup_candidate h k w).1 start b
          (add_progress-Counted (delete_cleanup_candidate h k w).0 p w
            (delete_cleanup_candidate h k w).1 start b c (delete_cleanup_candidate-Frees h k w)))
]

-- A run that succeeds from a disk of reasonable size has freed so many bytes.
record Reaches (t : ℕ) (m : M (Unit {0})) : Type 0 where
  reached :
      (w : World)
      → usage w.disk < i64_half
      → (m w).0 ≡ ok tt
      → t + usage (m w).1.disk ≤ usage w.disk

Reaches-next :
    {A : Type 0} (t : ℕ) (r : Result A) (w : World) (f : A → M (Unit {0})) (start : ℕ)
    → usage w.disk ≡ start
    → start < i64_half
    → ((a : A) → Reaches t (f a))
    → (next (r, w) f).0 ≡ ok tt
    → t + usage (next (r, w) f).1.disk ≤ start
Reaches-next t (ok a) w f start e b h o = omega (arith, e, (h a).reached w (omega (arith, e)) o)
Reaches-next t (err x) w f start e b h o = cc

Reaches-bind :
    {A : Type 0} (t : ℕ) (m : M A) (f : A → M (Unit {0}))
    → Keeps disk m
    → ((a : A) → Reaches t (f a))
    → Reaches t (m >>= f)
Reaches-bind t m f k h = record {
  reached = λ w b o. Reaches-next t (m w).0 (m w).1 f (usage w.disk) (ap usage (k.kept w)) b h o;
}

conclude_freed :
    (h : Handler) (t : ℕ) (p : Progress) (w : World)
    → (conclude h (pos t) p w).0 ≡ ok tt
    → (pos t ≤ℤ p.freed_bytes) × ((conclude h (pos t) p w).1.disk ≡ w.disk)
unfolding conclude
conclude_freed h t p w o = ground (
  arith,
  (publish_storage_changed-Keeps disk-IsStore h (record {
    used_bytes = i64 (pos 0 -ℤ p.freed_bytes);
    file_count = i64 (pos 0 -ℤ p.deleted_files);
    rare_videos = p.rare_videos_diff;
  })).kept
      w,
)

clean_from-Reaches :
    (h : Handler) (t : ℕ) (cs : List CleanupCandidate) → Reaches t (clean_from h (pos t) cs)
clean_from-Reaches h t cs = record {
  reached = λ w b o.
      let c =
        clean-Counted h (pos t) cs no_progress w (usage w.disk) b
          (record { freed = 0; counts = refl; left = omega arith }) in
      let (enough, same) =
        conclude_freed h t (clean h (pos t) cs no_progress w).0 (clean h (pos t) cs no_progress w).1
          o in
      ground (arith, c.counts, c.left, enough, same);
}

throw-Reaches : (t : ℕ) (e : Error) → Reaches t (throw e)
throw-Reaches t e = record { reached = λ w b o. cc }

list_candidates-disk : (f : CleanupCandidateFilter) → Keeps disk (list_cleanup_candidates f)
unfolding list_cleanup_candidates
list_candidates-disk f = Keeps-call disk-IsStore _ (record { kept = λ w. refl })

module _ (s : StableSort) where
  clean_sorted-Reaches :
      (h : Handler) (t : ℕ) (cs : List CleanupCandidate) → Reaches t (clean_sorted s h (pos t) cs)
  clean_sorted-Reaches h t [] = throw-Reaches t too_few_candidates
  clean_sorted-Reaches h t (c ∷ rest) =
      clean_from-Reaches h t (s.sort less_cleanup_candidate (c ∷ rest))

  clean_listed-Reaches :
      (h : Handler) (t : ℕ) (cs : List CleanupCandidate) → Reaches t (clean_listed s h (pos t) cs)
  clean_listed-Reaches h t [] = throw-Reaches t too_few_candidates
  clean_listed-Reaches h t (c ∷ rest) =
      Reaches-bind t now _ (Keeps-now disk-IsStore)
        λ n. clean_sorted-Reaches h t (filter_cleanup_candidates h n (c ∷ rest))

  clean_candidates-Reaches :
      (h : Handler) (u : ℤ × ℤ) (t : ℕ) → Reaches t (clean_candidates s h u (pos t))
  clean_candidates-Reaches h u t =
      Reaches-bind t (seed_storage_snapshot h u) _ (seed_storage_snapshot-Keeps disk-IsStore h u)
        λ _.
          Reaches-bind t (list_cleanup_candidates _) _ (list_candidates-disk _)
            λ cs. clean_listed-Reaches h t cs

  clean_to_target-Reaches :
      (h : Handler) (u : ℤ × ℤ) (t : ℕ) → 0 < t → Reaches t (clean_to_target s h u (pos t))
  unfolding clean_to_target
  clean_to_target-Reaches h u t p = elim (Bool-cases (leb_ℤ (pos t) (pos 0))) [
    | inl e ↦ absurd (ground arith)
    | inr e ↦ rw e (clean_candidates-Reaches h u t)
  ]

  clean_to_target_zero :
      (h : Handler) (u : ℤ × ℤ) (w : World) → clean_to_target s h u (pos 0) w ≡ (ok tt, w)
  unfolding clean_to_target
  clean_to_target_zero h u w = refl

  -- What is to be shown of the world when the cleanup ends.
  abbrev AtMost : Handler → World → Type 0
  AtMost h w = (threshold h ≤ℤ pos 0) ⊎ (pos (usage w.disk) ≤ℤ threshold h)

  after_target :
      (h : Handler) (u : ℤ × ℤ) (w : World) (used : ℕ) (target : ℤ)
      → usage w.disk ≡ used
      → used < i64_half
      → IsTarget h used target
      → (clean_to_target s h u target w).0 ≡ ok tt
      → AtMost h (clean_to_target s h u target w).1
  after_target h u w used target same b (inl (z, c)) o = rw (z, clean_to_target_zero h u w, same) c
  after_target h u w used target same b (inr (limit, e, p, lt, z)) o =
      let r =
        (clean_to_target-Reaches h u (used - limit) (omega arith)).reached w (omega (arith, same))
          (rw z at o) in
      inr (rw (z, e) (omega (arith, r, same)))

  after_scan :
      (h : Handler) (r : Result (ℤ × ℤ)) (w : World) (used : ℕ)
      → usage w.disk ≡ used
      → used < i64_half
      → ((u : ℤ × ℤ) → r ≡ ok u → u.0 ≡ pos used)
      → (next (r, w) (λ u. clean_to_target s h u (cleanup_target h u.0))).0 ≡ ok tt
      → AtMost h (next (r, w) (λ u. clean_to_target s h u (cleanup_target h u.0))).1
  after_scan h (err e) w used same b f o = absurd (cc)
  after_scan h (ok u) w used same b f o =
      after_target h u w used (cleanup_target h u.0) same b
        (rw (f u refl) (cleanup_target_lem h used b)) o

  -- A cleanup that succeeds: either no limit is set, or the files under the store root take up no
  -- more than the threshold when it ends, whatever they took up before. The store must be there
  -- when it is scanned, and smaller than 2^63 bytes.
  pub handle_cleanup_reaches :
      (h : Handler) (w : World)
      → StoreIsThere w
      → usage w.disk < i64_half
      → (handle_cleanup s h w).0 ≡ ok tt
      → (threshold h ≤ℤ pos 0) ⊎ (pos (usage (handle_cleanup s h w).1.disk) ≤ℤ threshold h)
  unfolding handle_cleanup
  handle_cleanup_reaches h w there b o =
      elim (Bool-cases (not h.has_videos || not h.has_video_files)) [
        | inl e ↦ absurd (ground arith)
        | inr e ↦ elim (Bool-cases (str_eq h.storage_root "")) [
          | inl n ↦ absurd (ground arith)
          | inr n ↦
              rw (e, n)
                (after_scan h (scan_storage_usage h.storage_root w).0
                  (scan_storage_usage h.storage_root w).1 (usage w.disk)
                  (ap usage ((scan_storage_usage-Keeps disk-IsStore h.storage_root).kept w)) b
                  (λ u r. scan_storage_usage_lem h.storage_root w n there b r) (rw (e, n) at o))
        ]
      ]
