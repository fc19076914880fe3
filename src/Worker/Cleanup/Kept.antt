-- ===== src/Worker/Cleanup/Kept.antt =====
-- What the loop of a cleanup leaves on the disk.
use Prim.Native.String.{String}
use package.text.Mathlib.Text.{◌==◌ as str_eq}
use package.text.Mathlib.TextEquality.{eq_iff}
use fetch_bilibili.Prelude.{
  ℕ, ◌+◌, ltb, ◌<◌, ◌≡◌, refl, ◌∙◌, ap, arith, Bool, true, false, not, ◌&&◌, Option, List, [], ◌∷◌,
  every, Bool-cases, inl, inr,
}
use fetch_bilibili.Prelude.Int.{ℤ, pos, ◌-ℤ◌, leb_ℤ, ltb_ℤ, i64}
use fetch_bilibili.World.{Result, ok, err, DiskFile, World, next, ◌>>=◌, return, call}
use fetch_bilibili.Effects.{disk-IsStore}
use fetch_bilibili.Repo.Models.{out_of_print, CleanupCandidate}
use fetch_bilibili.Repo.Videos.{same_state, cleanable}
use fetch_bilibili.Repo.Videos.Paths.{passes_at}
use fetch_bilibili.Worker.Handler.{Handler}
use fetch_bilibili.Worker.Ranking.{is_retained, filter_cleanup_candidates}
use fetch_bilibili.Worker.Deletion.{
  find_file, without, stat_size, remove, delete_on_disk, delete_rows, delete_cleanup_candidate,
}
use fetch_bilibili.Worker.Deletion.Freed.{delete_rows-disk}
use fetch_bilibili.Worker.Snapshot.Scan.{publish_storage_changed-Keeps}
use fetch_bilibili.Worker.Cleanup.{Progress, no_progress, add_progress, clean, conclude, clean_from}

module _ (path : String) where
  -- The file with the path, if there is one, is the one that was there.
  abbrev pub Has : Option ℕ → World → Type 0
  Has size w = find_file path w.disk ≡ size

  abbrev pub other_path : CleanupCandidate → Bool
  other_path c = not (str_eq c.file_path path)

  find_file-without :
      (other : String) (d : List DiskFile)
      → str_eq other path ≡ false
      → find_file path (without other d) ≡ find_file path d
  find_file-without other [] e = refl
  find_file-without other (f ∷ d) e = ground (
    arith,
    e,
    find_file-without other d e,
    eq_iff f.path other,
    eq_iff f.path path,
    eq_iff other path,
  )

  module _ (size : Option ℕ) where
    delete_on_disk-Has :
        (other : String) (w : World)
        → str_eq other path ≡ false
        → Has size w
        → Has size (delete_on_disk other w).1
    unfolding delete_on_disk stat_size remove call
    delete_on_disk-Has other w e h = ground (arith, h, find_file-without other w.disk e)

    after_deletion :
        (h : Handler) (c : CleanupCandidate) (r : Result ℤ) (w : World)
        → Has size w
        → Has size (
            (next {B = ℤ × ℤ × ℤ}
              (r, w)
              (λ freed. delete_rows h c >>= λ rows. return (freed, rows.0, rows.1))).1)
    after_deletion h c (err e) w f = f
    after_deletion h c (ok n) w f = ground (arith, f, (delete_rows-disk h c).kept w)

    delete-Has :
        (h : Handler) (c : CleanupCandidate) (w : World)
        → other_path c ≡ true
        → Has size w
        → Has size (delete_cleanup_candidate h c w).1
    unfolding delete_cleanup_candidate
    delete-Has h c w o f =
        after_deletion h c (delete_on_disk c.file_path w).0 (delete_on_disk c.file_path w).1
          (delete_on_disk-Has c.file_path w (ground (arith, o)) f)

    clean-Has :
        (h : Handler) (target : ℤ) (cs : List CleanupCandidate) (p : Progress) (w : World)
        → every other_path cs ≡ true
        → Has size w
        → Has size (clean h target cs p w).1
    unfolding clean
    clean-Has h target [] p w o f = f
    clean-Has h target (c ∷ rest) p w o f = elim (Bool-cases (leb_ℤ target p.freed_bytes)) [
      | inl done ↦ rw (done, clean) f
      | inr more ↦
          rw (more, clean)
            (clean-Has h target rest (add_progress (delete_cleanup_candidate h c w).0 p)
              (delete_cleanup_candidate h c w).1 (ground (arith, o))
              (delete-Has h c w (ground (arith, o)) f))
    ]

    conclude-Has :
        (h : Handler) (target : ℤ) (p : Progress) (w : World)
        → Has size w
        → Has size (conclude h target p w).1
    unfolding conclude
    conclude-Has h target p w f = elim (Bool-cases (ltb_ℤ p.freed_bytes target)) [
      | inl e ↦ rw e f
      | inr e ↦ rw e (
          ap (find_file path) (
            (publish_storage_changed-Keeps disk-IsStore h (record {
              used_bytes = i64 (pos 0 -ℤ p.freed_bytes);
              file_count = i64 (pos 0 -ℤ p.deleted_files);
              rare_videos = p.rare_videos_diff;
            })).kept
              w)
          ∙ f)
    ]

    pub clean_from-Has :
        (h : Handler) (target : ℤ) (cs : List CleanupCandidate) (w : World)
        → every other_path cs ≡ true
        → Has size w
        → Has size (clean_from h target cs w).1
    clean_from-Has h target cs w o f =
        conclude-Has h target (clean h target cs no_progress w).0
          (clean h target cs no_progress w).1 (clean-Has h target cs no_progress w o f)

  -- No candidate is left that is both listed without the rare videos and rare.
  pub not_rare :
      (cs : List CleanupCandidate)
      → every (passes_at path (λ c. same_state c.state out_of_print)) cs ≡ true
      → every (λ c. cleanable false c.state) cs ≡ true
      → every other_path cs ≡ true
  not_rare [] e f = refl
  not_rare (c ∷ cs) e f = ground (arith, e, f, not_rare cs)

  -- The file of the candidate has not outlived the retention at the time.
  abbrev pub young : ℕ → ℕ → CleanupCandidate → Bool
  young r t c = ltb 0 c.file_created_at && ltb t (c.file_created_at + r)

  pub not_young :
      (h : Handler) (r t : ℕ) (cs : List CleanupCandidate)
      → 0 < r
      → h.cleanup_retention ≡ pos r
      → every (passes_at path (young r t)) cs ≡ true
      → every other_path (filter_cleanup_candidates h t cs) ≡ true
  unfolding filter_cleanup_candidates is_retained
  not_young h r t [] l e f = ground (arith, e)
  not_young h r t (c ∷ cs) l e f = ground (arith, l, e, f, not_young h r t cs l e)
