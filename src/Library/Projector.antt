-- ===== src/Library/Projector.antt =====
-- internal/library/projector.go: which videos RebuildCreator links, in which bucket and order, and
-- the two manifests that it writes, with the types of internal/library/types.go. The directories and
-- links themselves are not modelled: `stat` is os.Stat and the name of the
-- directory is given.
use Prim.Native.Nat.{Ordering}
use Prim.Native.String.{String, compare, ◌++◌ as str_append}
use package.text.Mathlib.Text.{◌==◌ as str_eq}
use fetch_bilibili.Prelude.{
  ℕ, suc, ltb, ◌==◌, Bool, true, false, not, ◌&&◌, ◌||◌, Option, none, some, List, [], ◌∷◌, ◌++◌,
  if◌then◌else◌,
}
use fetch_bilibili.Prelude.Int.{ℤ, pos, leb_ℤ, ◌+ℤ◌, i64}
use fetch_bilibili.Prelude.Sort.{sort_by}
use fetch_bilibili.Repo.Models.{VideoState, downloaded, stable, out_of_print}
use fetch_bilibili.Library.Path.{normalize_platform}
use fetch_bilibili.Library.Exporter.{VideoSnapshot, CreatorSnapshot}
pub mod Counts

-- What os.Stat says of a file that is there.
pub record FileInfo : Type 0 where
  pub is_dir : Bool
  pub size : ℤ

pub data Bucket : Type 0 where
  videos rare : Bucket

pub record ProjectedVideo : Type 0 where
  pub video : VideoSnapshot
  pub bucket : Bucket
  pub size : ℤ

-- `none` is the empty text.
abbrev pub projection_bucket : VideoState → Option Bucket
projection_bucket downloaded = some videos
projection_bucket stable = some videos
projection_bucket out_of_print = some rare
projection_bucket _ = none

abbrev pub size_of : VideoSnapshot → FileInfo → ℤ
size_of v info = if leb_ℤ v.size_bytes (pos 0) then info.size else v.size_bytes

abbrev pub with_info : VideoSnapshot → Bucket → Option FileInfo → Option ProjectedVideo
with_info v b none = none
with_info v b (some info) =
    if info.is_dir then none else some (record { video = v; bucket = b; size = size_of v info })

abbrev pub project :
    (String → Option FileInfo) → VideoSnapshot → Option Bucket → Option ProjectedVideo
project stat v none = none
project stat v (some b) = if str_eq v.file_path "" then none else with_info v b (stat v.file_path)

abbrev pub cons_some : {A : Type 0} → Option A → List A → List A
cons_some none xs = xs
cons_some (some x) xs = x ∷ xs

abbrev pub projected : (String → Option FileInfo) → List VideoSnapshot → List ProjectedVideo
projected stat [] = []
projected stat (v ∷ rest) =
    cons_some (project stat v (projection_bucket v.state)) (projected stat rest)

abbrev is_before : Ordering → Bool
is_before Ordering.lt = true
is_before _ = false

-- The newest first, and videos of the same time in the order of their ids.
abbrev pub newer : ProjectedVideo → ProjectedVideo → Bool
newer a b =
    if not (a.video.publish_time == b.video.publish_time)
    then ltb b.video.publish_time a.video.publish_time
    else is_before (compare a.video.video_id b.video.video_id)

unfoldable pub collect_projected_videos :
    (String → Option FileInfo) → CreatorSnapshot → List ProjectedVideo
collect_projected_videos stat snapshot = sort_by newer (projected stat snapshot.videos)

pub record CreatorManifest : Type 0 where
  pub manifest_version : ℕ
  pub generated_at : ℕ
  pub platform : String
  pub uid : String
  pub name : String
  pub status : String
  pub follower_count : ℤ
  pub local_video_count : ℕ
  pub local_rare_count : ℕ
  pub storage_bytes : ℤ
  pub directory : String

pub record IndexVideoItem : Type 0 where
  pub video_id : String
  pub title : String
  pub state : VideoState
  pub publish_time : ℕ
  pub out_of_print_at : ℕ
  pub stable_at : ℕ
  pub relative_path : String
  pub size_bytes : ℤ
  pub view_count : ℤ
  pub favorite_count : ℤ

pub record IndexManifest : Type 0 where
  pub manifest_version : ℕ
  pub generated_at : ℕ
  pub platform : String
  pub uid : String
  pub videos : List IndexVideoItem

pub record Manifests : Type 0 where
  pub creator : CreatorManifest
  pub index : IndexManifest

abbrev pub bucket_name : Bucket → String
bucket_name videos = "videos"
bucket_name rare = "rare"

abbrev pub index_item : (List String → String) → ProjectedVideo → IndexVideoItem
index_item join item = record {
  video_id = item.video.video_id;
  title = item.video.title;
  state = item.video.state;
  publish_time = item.video.publish_time;
  out_of_print_at = item.video.out_of_print_at;
  stable_at = item.video.stable_at;
  relative_path = join (bucket_name item.bucket ∷ str_append item.video.video_id ".mp4" ∷ []);
  size_bytes = item.size;
  view_count = item.video.view_count;
  favorite_count = item.video.favorite_count;
}

abbrev pub in_bucket : Bucket → CreatorManifest → CreatorManifest
in_bucket videos c = record c { local_video_count = suc c.local_video_count }
in_bucket rare c = record c { local_rare_count = suc c.local_rare_count }

abbrev pub add_size : ℤ → CreatorManifest → CreatorManifest
add_size z c = record c { storage_bytes = i64 (c.storage_bytes +ℤ z) }

-- The loop over the projected videos.
unfoldable pub add_items : (List String → String) → List ProjectedVideo → Manifests → Manifests
add_items join [] m = m
add_items join (item ∷ rest) m = add_items join rest (record {
  creator = add_size item.size (in_bucket item.bucket m.creator);
  index = record m.index { videos = m.index.videos ++ index_item join item ∷ [] };
})

abbrev pub empty_manifests : ℕ → String → CreatorSnapshot → Manifests
empty_manifests generated_at directory s = record {
  creator = record {
    manifest_version = 1;
    generated_at = generated_at;
    platform = normalize_platform s.platform;
    uid = s.uid;
    name = s.name;
    status = s.status;
    follower_count = s.follower_count;
    local_video_count = 0;
    local_rare_count = 0;
    storage_bytes = pos 0;
    directory = directory;
  };
  index = record {
    manifest_version = 1;
    generated_at = generated_at;
    platform = normalize_platform s.platform;
    uid = s.uid;
    videos = [];
  };
}

abbrev pub unless_empty : List ProjectedVideo → Manifests → Option Manifests
unless_empty [] m = none
unless_empty (x ∷ xs) m = some m

-- The manifests, if anything is projected; the directory is removed if not.
unfoldable pub manifests :
    (List String → String)
    → (String → Option FileInfo)
    → ℕ
    → String
    → CreatorSnapshot
    → Option Manifests
unfolding collect_projected_videos add_items
manifests join stat generated_at directory snapshot =
    unless_empty (collect_projected_videos stat snapshot) (
      add_items join (collect_projected_videos stat snapshot)
        (empty_manifests generated_at directory snapshot))
