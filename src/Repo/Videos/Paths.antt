-- ===== src/Repo/Videos/Paths.antt =====
-- The candidates with a path, as ListCleanupCandidates returns them.
use Prim.Native.String.{String}
use package.text.Mathlib.Text.{◌==◌ as str_eq}
use fetch_bilibili.Prelude.{
  ◌≡◌, refl, arith, ◌∙◌, Bool, true, not, ◌||◌, ◌&&◌, ◌==◌, List, [], ◌∷◌, take, every,
  every-append, every-take, every-perm,
}
use fetch_bilibili.Prelude.Sort.{sort_by, sort_by-perm}
use fetch_bilibili.Prelude.Int.{ℤ}
use fetch_bilibili.World.{World}
use fetch_bilibili.Repo.Models.{Video, VideoFile, Creator, CleanupCandidate}
use fetch_bilibili.Repo.Videos.{row, join_files, join_creators, join_videos, older, limit_or}

-- What is asked of every file with the path and every video that it belongs to.
abbrev pair_ok : String → (VideoFile → Video → Bool) → VideoFile → Video → Bool
pair_ok path of_row f v = not (str_eq f.path path) || (not (f.video_id == v.id) || of_row f v)

abbrev pub all_pairs : String → (VideoFile → Video → Bool) → List VideoFile → List Video → Bool
all_pairs path of_row files vs = every (λ f. every (pair_ok path of_row f) vs) files

-- The candidate has another path, or passes_at the test.
abbrev pub passes_at : String → (CleanupCandidate → Bool) → CleanupCandidate → Bool
passes_at path test c = not (str_eq c.file_path path) || test c

module _ (rare : Bool) (path : String) (test : CleanupCandidate → Bool)
    (of_row : VideoFile → Video → Bool)
    (agree : (v : Video) (c : Creator) (f : VideoFile) → test (row v c f) ≡ of_row f v) where
  join_files-passes_at :
      (v : Video) (c : Creator) (files : List VideoFile)
      → every (λ f. pair_ok path of_row f v) files ≡ true
      → every (passes_at path test) (join_files rare v c files) ≡ true
  unfolding join_files
  join_files-passes_at v c [] e = refl
  join_files-passes_at v c (f ∷ rest) e =
      ground (arith, e, agree v c f, join_files-passes_at v c rest)

  join_creators-passes_at :
      (files : List VideoFile) (v : Video) (cs : List Creator)
      → every (λ f. pair_ok path of_row f v) files ≡ true
      → every (passes_at path test) (join_creators rare files v cs) ≡ true
  unfolding join_creators
  join_creators-passes_at files v [] e = refl
  join_creators-passes_at files v (c ∷ rest) e = ground (
    arith,
    join_creators-passes_at files v rest e,
    join_files-passes_at v c files e,
    every-append (passes_at path test) (join_files rare v c files)
        (join_creators rare files v rest),
  )

  pairs-first :
      (v : Video) (vs : List Video) (files : List VideoFile)
      → all_pairs path of_row files (v ∷ vs)
        ≡ (every (λ f. pair_ok path of_row f v) files && all_pairs path of_row files vs)
  pairs-first v vs [] = refl
  pairs-first v vs (f ∷ rest) = ground (arith, pairs-first v vs rest)

  join_videos-passes_at :
      (files : List VideoFile) (cs : List Creator) (vs : List Video)
      → all_pairs path of_row files vs ≡ true
      → every (passes_at path test) (join_videos rare files cs vs) ≡ true
  unfolding join_videos
  join_videos-passes_at files cs [] e = refl
  join_videos-passes_at files cs (v ∷ rest) e = ground (
    arith,
    e,
    pairs-first v rest files,
    join_creators-passes_at files v cs,
    join_videos-passes_at files cs rest,
    every-append (passes_at path test) (join_creators rare files v cs)
        (join_videos rare files cs rest),
  )

  -- The candidates of the path pass the test.
  pub listed-passes_at :
      (limit : ℤ) (w : World)
      → all_pairs path of_row w.files w.videos ≡ true
      → every
          (passes_at path test)
          (take (limit_or 200 limit) (sort_by older (join_videos rare w.files w.creators w.videos)))
        ≡ true
  listed-passes_at limit w e =
      every-take (passes_at path test) (limit_or 200 limit)
        (sort_by older (join_videos rare w.files w.creators w.videos))
        (every-perm (passes_at path test)
            (sort_by-perm older (join_videos rare w.files w.creators w.videos))
          ∙ join_videos-passes_at w.files w.creators w.videos e)
