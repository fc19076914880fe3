-- ===== src/Repo/Videos/Candidates.antt =====
-- Which rows ListCleanupCandidates returns.
use fetch_bilibili.Prelude.{
  ◌≡◌, refl, arith, Bool, true, List, [], ◌∷◌, every, every-append, every-take, every-perm, ◌∙◌,
  take,
}
use fetch_bilibili.Prelude.Int.{ℤ}
use fetch_bilibili.Prelude.Sort.{sort_by, sort_by-perm}
use fetch_bilibili.World.{World}
use fetch_bilibili.Repo.Models.{Video, VideoFile, Creator, CleanupCandidate}
use fetch_bilibili.Repo.Videos.{cleanable, join_files, join_creators, join_videos, older, limit_or}

module _ (rare : Bool) where
  abbrev fits : CleanupCandidate → Bool
  fits c = cleanable rare c.state

  join_files-fits :
      (v : Video) (c : Creator) (fs : List VideoFile) → every fits (join_files rare v c fs) ≡ true
  unfolding join_files
  join_files-fits v c [] = refl
  join_files-fits v c (f ∷ rest) = ground (arith, join_files-fits v c rest)

  join_creators-fits :
      (fs : List VideoFile) (v : Video) (cs : List Creator)
      → every fits (join_creators rare fs v cs) ≡ true
  unfolding join_creators
  join_creators-fits fs v [] = refl
  join_creators-fits fs v (c ∷ rest) = ground (
    arith,
    join_creators-fits fs v rest,
    join_files-fits v c fs,
    every-append fits (join_files rare v c fs) (join_creators rare fs v rest),
  )

  join_videos-fits :
      (fs : List VideoFile) (cs : List Creator) (vs : List Video)
      → every fits (join_videos rare fs cs vs) ≡ true
  unfolding join_videos
  join_videos-fits fs cs [] = refl
  join_videos-fits fs cs (v ∷ rest) = ground (
    arith,
    join_videos-fits fs cs rest,
    join_creators-fits fs v cs,
    every-append fits (join_creators rare fs v cs) (join_videos rare fs cs rest),
  )

-- Every listed row is of a video in one of the listed states.
pub listed-cleanable :
    (rare : Bool) (limit : ℤ) (w : World)
    → every
        (λ c. cleanable rare c.state)
        (take (limit_or 200 limit) (sort_by older (join_videos rare w.files w.creators w.videos)))
      ≡ true
listed-cleanable rare limit w =
    every-take (fits rare) (limit_or 200 limit)
      (sort_by older (join_videos rare w.files w.creators w.videos))
      (every-perm (fits rare) (sort_by-perm older (join_videos rare w.files w.creators w.videos))
        ∙ join_videos-fits rare w.files w.creators w.videos)
