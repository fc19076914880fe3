-- ===== src/Worker/Cleanup/Spared.antt =====
-- What a cleanup leaves on the disk.
use Prim.Native.String.{String}
use package.text.Mathlib.Text.{◌==◌ as str_eq}
use mathlib.Core.Path.{subst}
use fetch_bilibili.Prelude.{
  ℕ, ◌+◌, ltb, ◌<◌, ◌≡◌, refl, ◌∙◌, sym, ap, arith, Bool, true, not, ◌||◌, ◌&&◌, List, [], ◌∷◌,
  take, every, every-perm, every-keep, ◌⊎◌, inl, inr,
}
use fetch_bilibili.Prelude.Int.{ℤ, pos, leb_ℤ}
use fetch_bilibili.Prelude.Sort.{sort_by}
use fetch_bilibili.World.{
  not_initialized, no_root_dir, too_few_candidates, Result, ok, err, Outside, DiskFile, World, M,
  now,
}
use fetch_bilibili.Effects.{Keeps, IsStore}
use fetch_bilibili.Triples.{
  Ends, Triple, Triple-bind, Triple-return, Triple-throw, Triple-keeps, Triple-if, Triple-call,
  Triple-weaken,
}
use fetch_bilibili.Repo.Models.{Video, VideoFile, out_of_print, CleanupCandidate}
use fetch_bilibili.Repo.Videos.{
  same_state, cleanable, list_cleanup_candidates, limit_or, older, join_videos,
}
use fetch_bilibili.Repo.Videos.Candidates.{listed-cleanable}
use fetch_bilibili.Repo.Videos.Paths.{all_pairs, listed-passes_at}
use fetch_bilibili.Worker.Handler.{Handler}
use fetch_bilibili.Worker.Policy.{cleanup_target}
use fetch_bilibili.Worker.Ranking.{less_cleanup_candidate, is_retained, filter_cleanup_candidates}
use fetch_bilibili.Worker.Snapshot.Scan.{scan_storage_usage-Keeps, seed_storage_snapshot-Keeps}
use fetch_bilibili.Worker.Deletion.{find_file}
use fetch_bilibili.Worker.Cleanup.{
  StableSort, clean_from, clean_sorted, clean_listed, clean_to_target, handle_cleanup,
}
use fetch_bilibili.Worker.Cleanup.Kept.{Has, other_path, clean_from-Has, not_rare, young, not_young}

abbrev pub is_rare_pair : VideoFile → Video → Bool
is_rare_pair f v = same_state v.state out_of_print

abbrev pub is_young_pair : ℕ → ℕ → VideoFile → Video → Bool
is_young_pair r t f v = ltb 0 f.created_at && ltb t (f.created_at + r)

abbrev Part : Type 0
Part = Outside × List Video × List VideoFile × List DiskFile

abbrev part : World → Part
part w = (w.outside, w.videos, w.files, w.disk)

part-IsStore : IsStore part
part-IsStore = record {
  no_calls = λ w n. refl;
  no_snapshot = λ w s. refl;
  no_events = λ w es. refl;
  no_global = λ w l. refl;
  no_limiters = λ w ls. refl;
}

-- The rows with the path are not to be deleted: rare videos are kept, and all of them belong to rare
-- videos; or there is a retention, and whatever the clock shows, none of them has outlived it.
abbrev IsSparedIn : Handler → String → Part → Type 0
IsSparedIn h path (o, videos, files, d) =
    ((h.keep_rare ≡ true) × (all_pairs path is_rare_pair files videos ≡ true))
    ⊎ ((r : ℕ) × (0 < r)
        × (h.cleanup_retention ≡ pos r)
        × ((n : ℕ) → all_pairs path (is_young_pair r (o.clock n)) files videos ≡ true))

abbrev pub IsSpared : Handler → String → World → Type 0
IsSpared h path w = IsSparedIn h path (part w)

every-filter :
    (p : CleanupCandidate → Bool) (h : Handler) (t : ℕ) (cs : List CleanupCandidate)
    → every p cs ≡ true
    → every p (filter_cleanup_candidates h t cs) ≡ true
unfolding filter_cleanup_candidates
every-filter p h t cs e = ground (arith, e, every-keep p (λ c. not (is_retained h t c)) cs e)

-- What ListCleanupCandidates returns.
abbrev listing : Handler → World → List CleanupCandidate
listing h w =
    take (limit_or 200 h.cleanup_limit)
      (sort_by older (join_videos (not h.keep_rare) w.files w.creators w.videos))

spared-filtered :
    (h : Handler) (path : String) (w : World) (n : ℕ)
    → IsSpared h path w
    → every (other_path path) (filter_cleanup_candidates h (w.outside.clock n) (listing h w)) ≡ true
spared-filtered h path w n (inl (k, f)) =
    every-filter (other_path path) h (w.outside.clock n) (listing h w) (
      not_rare path (listing h w)
        (listed-passes_at (not h.keep_rare) path (λ c. same_state c.state out_of_print) is_rare_pair
          (λ v c f. refl) h.cleanup_limit w f)
        (subst (λ b. every (λ c. cleanable (not b) c.state) (listing h w) ≡ true) k
          (listed-cleanable (not h.keep_rare) h.cleanup_limit w)))
spared-filtered h path w n (inr (r, l, e, f)) =
    not_young path h r (w.outside.clock n) (listing h w) l e (
      listed-passes_at (not h.keep_rare) path (young path r (w.outside.clock n))
        (is_young_pair r (w.outside.clock n)) (λ v c f. refl) h.cleanup_limit w (f n))

module _ (s : StableSort) (h : Handler) (path : String) (w₀ : World) (i : IsSpared h path w₀) where
  abbrev Start : World → Type 0
  Start w = part w ≡ part w₀

  abbrev Same : World → Type 0
  Same w = Has path (find_file path w₀.disk) w

  Start-Same : (w : World) → Start w → Same w
  Start-Same w e = ap (λ p. find_file path p.3) e

  -- At any time that the clock shows, no listed candidate that outlives the filter has the path.
  abbrev Gone : List CleanupCandidate → Type 0
  Gone cs =
      (n : ℕ) → every (other_path path) (filter_cleanup_candidates h (w₀.outside.clock n) cs) ≡ true

  start : {A : Type 0} {m : M A} → Keeps part m → Triple Start m (λ a. Start) Same
  start k =
      Triple-weaken (Triple-keeps part (λ p. p ≡ part w₀) k) (λ w e. e) (λ a w e. e) Start-Same

  listed-Gone : (w : World) → Start w → Gone (listing h w)
  listed-Gone w e n =
      subst
        (λ o.
          every (other_path path) (filter_cleanup_candidates h (o.clock n) (listing h w)) ≡ true)
        (ap (λ p. p.0) e) (spared-filtered h path w n (subst (IsSparedIn h path) (sym e) i))

  list-Gone :
      Triple Start
        (list_cleanup_candidates
          (record { limit = h.cleanup_limit; include_out_of_print = not h.keep_rare }))
        (λ cs w. Start w × Gone cs)
        Same
  unfolding list_cleanup_candidates
  list-Gone =
      Triple-call _ (record { run = λ w e. (e, listed-Gone w e) }) (λ w e. (e, Start-Same w e))

  cleaned :
      (target : ℤ) (cs : List CleanupCandidate)
      → every (other_path path) cs ≡ true
      → Triple Start (clean_sorted s h target cs) (λ u. Same) Same
  cleaned target [] o = Triple-throw too_few_candidates Start-Same
  cleaned target (c ∷ cs) o = record {
    run = λ w e. ends (clean_from h target (s.sort less_cleanup_candidate (c ∷ cs)) w) (
        clean_from-Has path (find_file path w₀.disk) h target
          (s.sort less_cleanup_candidate (c ∷ cs)) w
          (every-perm (other_path path) (s.sort-perm less_cleanup_candidate (c ∷ cs)) ∙ o)
          (Start-Same w e));
  }
    where
      ends : (r : Result (Unit {0}) × World) → Same r.1 → Ends (λ u. Same) Same r
      ends (ok u, w) k = k
      ends (err x, w) k = k

  now-Start : Triple Start now (λ t w. Start w × (n : ℕ) × (t ≡ w₀.outside.clock n)) Same
  unfolding now
  now-Start = record { run = λ w e. (e, w.calls, ap (λ p. p.0.clock w.calls) e) }

  listed :
      (target : ℤ) (cs : List CleanupCandidate)
      → Gone cs
      → Triple Start (clean_listed s h target cs) (λ u. Same) Same
  listed target [] g = Triple-throw too_few_candidates Start-Same
  listed target (c ∷ cs) g =
      Triple-bind (λ t w. Start w × (n : ℕ) × (t ≡ w₀.outside.clock n)) now-Start
        (λ t. record {
          run = λ w k.
              (cleaned target (filter_cleanup_candidates h t (c ∷ cs)) (
                  ap (λ x. every (other_path path) (filter_cleanup_candidates h x (c ∷ cs))) k.2
                  ∙ g k.1)).run
                w k.0;
        })

  handle_cleanup-Same : Triple Start (handle_cleanup s h) (λ u. Same) Same
  unfolding handle_cleanup clean_to_target
  handle_cleanup-Same =
      Triple-if (not h.has_videos || not h.has_video_files)
        (Triple-throw not_initialized Start-Same)
        (Triple-if (str_eq h.storage_root "") (Triple-throw no_root_dir Start-Same) (
          Triple-bind (λ u. Start) (start (scan_storage_usage-Keeps part-IsStore h.storage_root))
            (λ u. Triple-if (leb_ℤ (cleanup_target h u.0) (pos 0)) (Triple-return tt Start-Same) (
              Triple-bind (λ v. Start) (start (seed_storage_snapshot-Keeps part-IsStore h u))
                (λ v.
                  Triple-bind (λ cs w. Start w × Gone cs) list-Gone
                    (λ cs. record {
                      run = λ w k. (listed (cleanup_target h u.0) cs k.1).run w k.0;
                    }))))))

  ends-Same : (r : Result (Unit {0}) × World) → Ends (λ u. Same) Same r → Same r.1
  ends-Same (ok u, w) k = k
  ends-Same (err e, w) k = k

-- A cleanup leaves the file at a path alone, whatever fails on the way, if the rows of video_files with
-- this path are spared: out-of-print videos are kept, and every video that such a row belongs to is
-- out of print; or a retention is set, and every such row was made less than the retention before
-- any time that the clock shows.
pub cleanup_spares :
    (s : StableSort) (h : Handler) (path : String) (w : World)
    → IsSpared h path w
    → find_file path (handle_cleanup s h w).1.disk ≡ find_file path w.disk
cleanup_spares s h path w i =
    ends-Same s h path w i (handle_cleanup s h w) ((handle_cleanup-Same s h path w i).run w refl)
