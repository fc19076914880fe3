-- ===== src/Library/Projector/Counts.antt =====
-- What the creator's manifest counts is what the index lists.
use Prim.Native.String.{String}
use mathlib.Core.Path.{subst}
use fetch_bilibili.Prelude.{
  ℕ, ◌+◌, ◌≡◌, refl, ◌∙◌, sym, arith, Bool, true, false, Option, some, List, [], ◌∷◌, tally,
  tally-append, every, every-perm, if◌then◌else◌,
}
use fetch_bilibili.Prelude.Sort.{sort_by, sort_by-perm}
use fetch_bilibili.Repo.Models.{VideoState, downloaded, stable, out_of_print}
use fetch_bilibili.Library.Exporter.{VideoSnapshot, CreatorSnapshot}
use fetch_bilibili.Library.Projector.{
  FileInfo, Bucket, videos, rare, ProjectedVideo, projection_bucket, projected, newer,
  collect_projected_videos, IndexVideoItem, CreatorManifest, Manifests, unless_empty,
  empty_manifests, index_item, in_bucket, add_items, manifests,
}

abbrev rare_state : VideoState → Bool
rare_state out_of_print = true
rare_state _ = false

abbrev kept_state : VideoState → Bool
kept_state downloaded = true
kept_state stable = true
kept_state _ = false

abbrev pub in_rare : IndexVideoItem → Bool
in_rare item = rare_state item.state

abbrev pub in_videos : IndexVideoItem → Bool
in_videos item = kept_state item.state

abbrev same_bucket : Bucket → Option Bucket → Bool
same_bucket videos (some videos) = true
same_bucket rare (some rare) = true
same_bucket _ _ = false

abbrev in_place : ProjectedVideo → Bool
in_place p = same_bucket p.bucket (projection_bucket p.video.state)

projected-in_place :
    (stat : String → Option FileInfo) (vs : List VideoSnapshot)
    → every in_place (projected stat vs) ≡ true
projected-in_place stat [] = refl
projected-in_place stat (v ∷ rest) = ground (arith, projected-in_place stat rest)

-- The counters agree with the list.
pub record Agrees (m : Manifests) : Type 0 where
  pub rare_count : m.creator.local_rare_count ≡ tally in_rare m.index.videos
  pub video_count : m.creator.local_video_count ≡ tally in_videos m.index.videos

rare-next :
    (b : Bucket) (s : VideoState) (c : CreatorManifest) (n : ℕ)
    → same_bucket b (projection_bucket s) ≡ true
    → c.local_rare_count ≡ n
    → (in_bucket b c).local_rare_count ≡ n + (if rare_state s then 1 else 0)
rare-next b s c n e h = ground (arith, e)

kept-next :
    (b : Bucket) (s : VideoState) (c : CreatorManifest) (n : ℕ)
    → same_bucket b (projection_bucket s) ≡ true
    → c.local_video_count ≡ n
    → (in_bucket b c).local_video_count ≡ n + (if kept_state s then 1 else 0)
kept-next b s c n e h = ground (arith, e)

unless_empty-some :
    (items : List ProjectedVideo) (x m : Manifests)
    → Agrees x
    → unless_empty items x ≡ some m
    → Agrees m
unless_empty-some [] x m a e = absurd (ground (arith, e))
unless_empty-some (i ∷ is) x m a e = subst Agrees (ground (arith, e)) a

module _ (join : List String → String) where
  add_items-Agrees :
      (items : List ProjectedVideo) (m : Manifests)
      → every in_place items ≡ true
      → Agrees m
      → Agrees (add_items join items m)
  unfolding add_items
  add_items-Agrees [] m e a = a
  add_items-Agrees (p ∷ rest) m e a = add_items-Agrees rest _ (ground (arith, e)) (record {
    rare_count =
        rare-next p.bucket p.video.state m.creator (tally in_rare m.index.videos)
          (ground (arith, e)) a.rare_count
        ∙ sym (tally-append in_rare m.index.videos (index_item join p ∷ []));
    video_count =
        kept-next p.bucket p.video.state m.creator (tally in_videos m.index.videos)
          (ground (arith, e)) a.video_count
        ∙ sym (tally-append in_videos m.index.videos (index_item join p ∷ []));
  })

-- The counts of a creator's manifest are the numbers of lost and of kept videos in the index.
pub manifests_agree :
    (join : List String → String) (stat : String → Option FileInfo) (at : ℕ) (directory : String)
    (s : CreatorSnapshot) (m : Manifests)
    → manifests join stat at directory s ≡ some m
    → Agrees m
unfolding manifests collect_projected_videos
manifests_agree join stat at directory s m e =
    let items = sort_by newer (projected stat s.videos) in
    unless_empty-some items (add_items join items (empty_manifests at directory s)) m
      (add_items-Agrees join items (empty_manifests at directory s)
        (every-perm in_place (sort_by-perm newer (projected stat s.videos))
          ∙ projected-in_place stat s.videos)
        (record { rare_count = refl; video_count = refl }))
      e
