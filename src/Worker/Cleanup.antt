-- ===== src/Worker/Cleanup.antt =====
-- internal/worker/handler.go: handleCleanup.
use package.text.Mathlib.Text.{◌==◌ as str_eq}
use mathlib.Core.List.{Perm}
use fetch_bilibili.Prelude.{
  Bool, true, false, not, ◌||◌, Option, none, some, List, [], ◌∷◌, if◌then◌else◌,
}
use fetch_bilibili.Prelude.Int.{ℤ, pos, ◌+ℤ◌, ◌-ℤ◌, ltb_ℤ, leb_ℤ, i64}
use fetch_bilibili.Prelude.Sort.{Sorted, IsWeakOrder}
use fetch_bilibili.World.{
  Error, not_initialized, no_root_dir, too_few_candidates, target_missed, Result, ok, err, World, M,
  ◌>>=◌, ◌>>◌, return, throw, now,
}
use fetch_bilibili.Repo.Models.{CleanupCandidate}
use fetch_bilibili.Repo.Videos.{list_cleanup_candidates}
use fetch_bilibili.Worker.Handler.{Handler}
use fetch_bilibili.Worker.Policy.{cleanup_target}
use fetch_bilibili.Worker.Snapshot.{
  scan_storage_usage, seed_storage_snapshot, publish_storage_changed,
}
use fetch_bilibili.Worker.Ranking.{less_cleanup_candidate, filter_cleanup_candidates}
use fetch_bilibili.Worker.Deletion.{delete_cleanup_candidate}
pub mod Target
pub mod Selection
pub mod Kept
pub mod Spared

pub record Progress : Type 0 where
  pub freed_bytes : ℤ
  pub deleted_files : ℤ
  pub rare_videos_diff : ℤ
  pub last_err : Option Error

abbrev pub no_progress : Progress
no_progress = record {
  freed_bytes = pos 0;
  deleted_files = pos 0;
  rare_videos_diff = pos 0;
  last_err = none;
}

abbrev pub add_progress : Result (ℤ × ℤ × ℤ) → Progress → Progress
add_progress (err e) p = record p { last_err = some e }
add_progress (ok (freed, rows, rare)) p = record p {
  freed_bytes = i64 (p.freed_bytes +ℤ freed);
  deleted_files = i64 (p.deleted_files +ℤ rows);
  rare_videos_diff = i64 (p.rare_videos_diff +ℤ rare);
}

-- The loop over the candidates, which stops once the target is reached.
unfoldable pub clean : Handler → ℤ → List CleanupCandidate → Progress → World → Progress × World
clean h target [] p w = (p, w)
clean h target (c ∷ rest) p w = elim (leb_ℤ target p.freed_bytes) [
  | true ↦ (p, w)
  | false ↦
      clean h target rest (add_progress (delete_cleanup_candidate h c w).0 p)
        (delete_cleanup_candidate h c w).1
]

abbrev shortfall : Option Error → Error
shortfall none = too_few_candidates
shortfall (some e) = target_missed e

-- What follows the loop.
unfoldable pub conclude : Handler → ℤ → Progress → M (Unit {0})
conclude h target p =
    if ltb_ℤ p.freed_bytes target
    then throw (shortfall p.last_err)
    else publish_storage_changed h (record {
      used_bytes = i64 (pos 0 -ℤ p.freed_bytes);
      file_count = i64 (pos 0 -ℤ p.deleted_files);
      rare_videos = p.rare_videos_diff;
    })

-- sort.SliceStable: the result holds the same elements, and none stands behind one that it comes
-- before if the comparison is a strict weak order.
pub record StableSort : Type 0 where
  pub sort :
      (CleanupCandidate → CleanupCandidate → Bool) → List CleanupCandidate → List CleanupCandidate
  pub sort-perm :
      (lt : CleanupCandidate → CleanupCandidate → Bool) (cs : List CleanupCandidate)
      → Perm (sort lt cs) cs
  pub sort-Sorted :
      (lt : CleanupCandidate → CleanupCandidate → Bool) (cs : List CleanupCandidate)
      → IsWeakOrder lt
      → Sorted lt (sort lt cs)

abbrev pub clean_from : Handler → ℤ → List CleanupCandidate → M (Unit {0})
clean_from h target cs w =
    conclude h target (clean h target cs no_progress w).0 (clean h target cs no_progress w).1

module _ (s : StableSort) where
  abbrev pub clean_sorted : Handler → ℤ → List CleanupCandidate → M (Unit {0})
  clean_sorted h target [] = throw too_few_candidates
  clean_sorted h target (c ∷ rest) = clean_from h target (s.sort less_cleanup_candidate (c ∷ rest))

  abbrev pub clean_listed : Handler → ℤ → List CleanupCandidate → M (Unit {0})
  clean_listed h target [] = throw too_few_candidates
  clean_listed h target (c ∷ rest) = do
    t ← now
    clean_sorted h target (filter_cleanup_candidates h t (c ∷ rest))

  abbrev pub clean_candidates : Handler → ℤ × ℤ → ℤ → M (Unit {0})
  clean_candidates h usage target = do
    seed_storage_snapshot h usage
    cs ←
        list_cleanup_candidates
          (record { limit = h.cleanup_limit; include_out_of_print = not h.keep_rare })
    clean_listed h target cs

  unfoldable pub clean_to_target : Handler → ℤ × ℤ → ℤ → M (Unit {0})
  clean_to_target h usage target =
      if leb_ℤ target (pos 0) then return tt else clean_candidates h usage target

  unfoldable pub handle_cleanup : Handler → M (Unit {0})
  handle_cleanup h =
      if not h.has_videos || not h.has_video_files
      then throw not_initialized
      else if str_eq h.storage_root ""
      then throw no_root_dir
      else (do
        usage ← scan_storage_usage h.storage_root
        clean_to_target h usage (cleanup_target h usage.0))
