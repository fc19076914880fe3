-- ===== src/Repo/Listing.antt =====
-- internal/repo/mysql/video_repo.go: Upsert, ListRecent and ListLibraryByCreator. An empty state of
-- a video, which stands for NEW, is left out. The driver reports one affected row for a new row only,
-- as it does by default.
use Prim.Native.String.{String}
use package.text.Mathlib.Text.{◌==◌ as str_eq}
use fetch_bilibili.Prelude.{
  ℕ, suc, ltb, ◌==◌, Bool, true, false, ◌&&◌, Option, none, some, List, [], ◌∷◌, ◌++◌, keep, take,
  first, any, change, if◌then◌else◌,
}
use fetch_bilibili.Prelude.Int.{ℤ, pos, leb_ℤ}
use fetch_bilibili.Prelude.Sort.{sort_by}
use fetch_bilibili.Repo.Models.{
  VideoState, out_of_print, Video, VideoFile, VideoListFilter, LibraryVideo,
}
use fetch_bilibili.Repo.Videos.{limit_or, is_video, same_state, column_accepts}
use fetch_bilibili.Repo.Creators.{in_library, or_default}
use fetch_bilibili.World.{
  data_truncated, no_parent, Result, ok, err, M, ◌>>=◌, return, throw, call, attempt,
}

abbrev pub has_key : String → String → Video → Bool
has_key platform video_id v = str_eq v.platform platform && str_eq v.video_id video_id

-- The columns state, view_count and favorite_count.
abbrev pub accepts : Video → Bool
accepts v = column_accepts v.state && leb_ℤ (pos 0) v.view_count && leb_ℤ (pos 0) v.favorite_count

abbrev pub with_platform : Video → Video
with_platform v = record v { platform = or_default "bilibili" v.platform }

-- The row of the INSERT.
abbrev pub inserted : ℕ → ℕ → Video → Video
inserted id now v = record v {
  id = id;
  out_of_print_at = 0;
  stable_at = 0;
  last_check_at = 0;
  created_at = now;
  updated_at = now;
}

-- ON DUPLICATE KEY UPDATE: the state, the owner and the times of the checks stay.
abbrev pub merged : ℕ → Video → Video → Video
merged now v old = record old {
  title = v.title;
  description = v.description;
  publish_time = v.publish_time;
  duration = v.duration;
  cover_url = v.cover_url;
  view_count = v.view_count;
  favorite_count = v.favorite_count;
  updated_at = now;
}

abbrev pub upsert_found : Video → Option Video → M (ℕ × Bool)
upsert_found v (some old) w = (
  ok (old.id, false),
  record w {
    videos = change (has_key v.platform v.video_id) (merged (w.outside.clock w.calls) v) w.videos;
  },
)
upsert_found v none w =
    if any (λ c. c.id == v.creator_id) w.creators
    then (
      ok (w.next_video_id, true),
      record w {
        videos = w.videos ++ inserted w.next_video_id (w.outside.clock w.calls) v ∷ [];
        next_video_id = suc w.next_video_id;
      },
    )
    else throw no_parent w

abbrev pub upsert_row : Video → M (ℕ × Bool)
upsert_row v w =
    if accepts v
    then upsert_found v (first (has_key v.platform v.video_id) w.videos) w
    else throw data_truncated w

-- If the number of affected rows cannot be read, the video counts as not created.
abbrev pub created : Result Bool → Bool
created (ok c) = c
created (err e) = false

unfoldable pub upsert : Video → M (ℕ × Bool)
unfolding call
upsert v = do
  row ← call (upsert_row (with_platform v))
  id ← call (return row.0)
  r ← attempt (call (return row.1))
  return (id, created r)

abbrev pub of_creator : ℤ → Video → Bool
of_creator (pos (suc n)) v = v.creator_id == suc n
of_creator _ v = true

abbrev pub in_state : Option VideoState → Video → Bool
in_state none v = true
in_state (some s) v = same_state v.state s

-- ORDER BY, with the last resort `id DESC`. A time of 0 is NULL, and comes last.
abbrev pub newer : Video → Video → Bool
newer a b =
    if a.publish_time == b.publish_time then ltb b.id a.id else ltb b.publish_time a.publish_time

abbrev by_loss : Video → Video → Bool
by_loss a b =
    if a.out_of_print_at == b.out_of_print_at
    then (if a.last_check_at == b.last_check_at
        then ltb b.id a.id
        else ltb b.last_check_at a.last_check_at)
    else ltb b.out_of_print_at a.out_of_print_at

abbrev pub recent_order : Option VideoState → Video → Video → Bool
recent_order (some out_of_print) = by_loss
recent_order _ = newer

unfoldable pub list_recent : VideoListFilter → M (List Video)
unfolding call
list_recent filter = call (λ w. (
  ok (
      take (limit_or 20 filter.limit) (
        sort_by (recent_order filter.state)
          (keep (λ v. of_creator filter.creator_id v && in_state filter.state v) w.videos))),
  w,
))

-- The video file with the largest id.
abbrev later : VideoFile → Option VideoFile → VideoFile
later f none = f
later f (some g) = if ltb f.id g.id then g else f

abbrev pub latest_file : ℕ → List VideoFile → Option VideoFile
latest_file video_id [] = none
latest_file video_id (f ∷ rest) =
    let newest = latest_file video_id rest in
    if f.video_id == video_id && is_video f.type then some (later f newest) else newest

abbrev with_file : Video → Option VideoFile → List LibraryVideo → List LibraryVideo
with_file v none rest = rest
with_file v (some f) rest =
    record { video = v; file_path = f.path; size_bytes = f.size_bytes } ∷ rest

abbrev pub join_latest : List VideoFile → List Video → List LibraryVideo
join_latest files [] = []
join_latest files (v ∷ rest) = with_file v (latest_file v.id files) (join_latest files rest)

unfoldable pub list_library_by_creator : ℕ → M (List LibraryVideo)
unfolding call
list_library_by_creator creator_id = call (λ w. (
  ok (
      sort_by (λ a b. newer a.video b.video)
        (join_latest w.files
          (keep (λ v. v.creator_id == creator_id && in_library v.state) w.videos))),
  w,
))
