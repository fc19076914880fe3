-- ===== src/Repo/Videos.antt =====
-- internal/repo/mysql/video_repo.go over the tables videos, video_files and creators: the
-- statements that the worker uses. ORDER BY keeps the table's order among equal rows.
use Prim.Native.String.{String}
use fetch_bilibili.Prelude.{
  ℕ, ltb, Bool, true, false, not, ◌&&◌, ◌||◌, Option, none, some, List, [], ◌∷◌, ◌++◌, map, length,
  keep, tally, take, ◌==◌, if◌then◌else◌,
}
use fetch_bilibili.Prelude.Int.{ℤ, pos, pos_part, leb_ℤ}
use fetch_bilibili.Prelude.Sort.{sort_by}
use fetch_bilibili.Repo.Models.{
  VideoState, new, downloading, downloaded, out_of_print, stable, deleted, failed, Video, VideoFile,
  FileType, Creator, CleanupCandidate, CleanupCandidateFilter,
}
use fetch_bilibili.World.{
  Error, no_rows, data_truncated, Result, ok, err, World, M, ◌>>=◌, ◌>>◌, return, throw, call,
}
pub mod Candidates
pub mod Paths
pub mod States

-- The ENUM of the column videos.state (migrations/0001_init.sql).
abbrev pub column_accepts : VideoState → Bool
column_accepts failed = false
column_accepts _ = true

abbrev pub same_state : VideoState → VideoState → Bool
same_state new new = true
same_state downloading downloading = true
same_state downloaded downloaded = true
same_state out_of_print out_of_print = true
same_state stable stable = true
same_state deleted deleted = true
same_state failed failed = true
same_state _ _ = false

abbrev pub find_video : ℕ → List Video → Option Video
find_video id [] = none
find_video id (v ∷ rest) = let later = find_video id rest in if v.id == id then some v else later

abbrev pub update_videos : ℕ → (Video → Video) → List Video → List Video
update_videos id f [] = []
update_videos id f (v ∷ rest) =
    let later = update_videos id f rest in if v.id == id then f v ∷ later else v ∷ later

abbrev pub is_some : {A : Type 0} → Option A → Bool
is_some none = false
is_some (some _) = true

-- A value that the column does not accept is refused if there is a row to write it to.
abbrev pub set_column : ℕ → VideoState → (World → Video → Video) → M (Unit {0})
set_column id state f w =
    if not (column_accepts state) && is_some (find_video id w.videos)
    then (err data_truncated, w)
    else (ok tt, record w { videos = update_videos id (f w) w.videos })

unfoldable pub update_state : ℕ → VideoState → M (Unit {0})
unfolding call
update_state id state =
    call (
      set_column id state (λ w v. record v { state = state; updated_at = w.outside.clock w.calls }))

abbrev pub found : Option Video → M Video
found none = throw no_rows
found (some v) = return v

unfoldable pub find_by_id : ℕ → M Video
unfolding call
find_by_id id = call (λ w. found (find_video id w.videos) w)

abbrev pub coalesce : Option ℕ → ℕ → ℕ
coalesce none old = old
coalesce (some t) old = t

unfoldable pub update_check_status : ℕ → VideoState → Option ℕ → Option ℕ → ℕ → M (Unit {0})
unfolding call
update_check_status id state out stable_at last_check = call (
    set_column id state (λ w v. record v {
      state = state;
      out_of_print_at = coalesce out v.out_of_print_at;
      stable_at = coalesce stable_at v.stable_at;
      last_check_at = last_check;
      updated_at = w.outside.clock w.calls;
    }))

abbrev pub limit_or : ℕ → ℤ → ℕ
limit_or default limit = if leb_ℤ limit (pos 0) then default else pos_part limit

abbrev pub checkable : VideoState → Bool
checkable downloaded = true
checkable stable = true
checkable _ = false

-- A time of 0 is NULL, and comes first.
unfoldable pub list_for_check : ℤ → M (List Video)
unfolding call
list_for_check limit = call (λ w. (
  ok (
      take (limit_or 50 limit) (
        sort_by (λ a b. ltb a.last_check_at b.last_check_at)
          (keep (λ v. checkable v.state) w.videos))),
  w,
))

unfoldable pub count_by_state : Option VideoState → M ℕ
unfolding call
count_by_state none = call (λ w. (ok (length w.videos), w))
count_by_state (some state) = call (λ w. (ok (tally (λ v. same_state v.state state) w.videos), w))

abbrev pub cleanable : Bool → VideoState → Bool
cleanable rare downloaded = true
cleanable rare stable = true
cleanable rare out_of_print = rare
cleanable rare _ = false

abbrev pub is_video : FileType → Bool
is_video FileType.video = true
is_video _ = false

abbrev pub row : Video → Creator → VideoFile → CleanupCandidate
row v c f = record {
  video_id = v.id;
  source_video_id = v.video_id;
  platform = v.platform;
  title = v.title;
  state = v.state;
  creator_id = c.id;
  creator_name = c.name;
  creator_follower_count = c.follower_count;
  view_count = v.view_count;
  favorite_count = v.favorite_count;
  file_id = f.id;
  file_path = f.path;
  file_size_bytes = f.size_bytes;
  file_created_at = f.created_at;
}

-- The rows of the join, for the files, creators and videos in turn.
unfoldable pub join_files : Bool → Video → Creator → List VideoFile → List CleanupCandidate
join_files rare v c [] = []
join_files rare v c (f ∷ rest) =
    let more = join_files rare v c rest in
    if f.video_id == v.id && is_video f.type && cleanable rare v.state
    then row v c f ∷ more
    else more

unfoldable pub join_creators : Bool → List VideoFile → Video → List Creator → List CleanupCandidate
join_creators rare files v [] = []
join_creators rare files v (c ∷ rest) =
    let more = join_creators rare files v rest in
    if c.id == v.creator_id then join_files rare v c files ++ more else more

unfoldable pub join_videos :
    Bool → List VideoFile → List Creator → List Video → List CleanupCandidate
join_videos rare files creators [] = []
join_videos rare files creators (v ∷ rest) =
    join_creators rare files v creators ++ join_videos rare files creators rest

-- ORDER BY vf.created_at ASC, vf.id ASC.
abbrev pub older : CleanupCandidate → CleanupCandidate → Bool
older a b =
    if a.file_created_at == b.file_created_at
    then ltb a.file_id b.file_id
    else ltb a.file_created_at b.file_created_at

unfoldable pub list_cleanup_candidates : CleanupCandidateFilter → M (List CleanupCandidate)
unfolding call
list_cleanup_candidates filter = call (λ w. (
  ok (
      take (limit_or 200 filter.limit)
        (sort_by older (join_videos filter.include_out_of_print w.files w.creators w.videos))),
  w,
))
