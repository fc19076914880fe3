-- ===== src/Repo/Creators.antt =====
-- internal/repo/mysql/creator_repo.go over the table creators, with its unique key (platform, uid)
-- and its ENUM of states. Texts are compared exactly. An INSERT and a DELETE are followed by a
-- second call that reads the id or the count, which may fail by itself.
use Prim.Native.String.{String}
use package.text.Mathlib.Text.{◌==◌ as str_eq}
use fetch_bilibili.Prelude.{
  ℕ, suc, ltb, ◌==◌, Bool, true, false, not, ◌&&◌, ◌||◌, Option, none, some, List, [], ◌∷◌, ◌++◌,
  map, length, keep, tally, take, first, any, change, if◌then◌else◌,
}
use fetch_bilibili.Prelude.Int.{ℤ, pos, ◌+ℤ◌, leb_ℤ}
use fetch_bilibili.Prelude.Sort.{sort_by}
use fetch_bilibili.Repo.Models.{
  Video, VideoFile, VideoState, downloaded, stable, out_of_print, Creator,
}
use fetch_bilibili.Repo.Videos.{limit_or, is_video}
use fetch_bilibili.World.{
  Error, no_rows, data_truncated, conflict, duplicate_key, Result, ok, err, World, M, ◌>>=◌, ◌>>◌,
  return, throw, call,
}
pub mod Keys
pub mod Writes

abbrev pub or_default : String → String → String
or_default default s = if str_eq s "" then default else s

-- The columns creators.status (migrations/00002_creator_removed_status.sql) and follower_count.
abbrev pub accepts : Creator → Bool
accepts c =
    (str_eq c.status "active" || str_eq c.status "paused" || str_eq c.status "removed")
    && leb_ℤ (pos 0) c.follower_count

abbrev pub has_key : String → String → Creator → Bool
has_key platform uid c = str_eq c.platform platform && str_eq c.uid uid

abbrev pub with_defaults : Creator → Creator
with_defaults c = record c {
  platform = or_default "bilibili" c.platform;
  status = or_default "active" c.status;
}

-- The row of an INSERT.
abbrev pub inserted : ℕ → ℕ → Creator → Creator
inserted id now c = record c {
  id = id;
  local_video_count = pos 0;
  storage_bytes = pos 0;
  created_at = now;
  updated_at = now;
}

-- ON DUPLICATE KEY UPDATE.
abbrev pub merged : ℕ → Creator → Creator → Creator
merged now c old = record old {
  name = or_default old.name c.name;
  follower_count = c.follower_count;
  status = c.status;
  updated_at = now;
}

abbrev pub insert_row : Creator → M ℕ
insert_row c w = (
  ok w.next_creator_id,
  record w {
    creators = w.creators ++ inserted w.next_creator_id (w.outside.clock w.calls) c ∷ [];
    next_creator_id = suc w.next_creator_id;
  },
)

abbrev pub upsert_found : Creator → Option Creator → M ℕ
upsert_found c none w = insert_row c w
upsert_found c (some old) w = (
  ok old.id,
  record w {
    creators = change (has_key c.platform c.uid) (merged (w.outside.clock w.calls) c) w.creators;
  },
)

abbrev pub upsert_row : Creator → M ℕ
upsert_row c w =
    if accepts c
    then upsert_found c (first (has_key c.platform c.uid) w.creators) w
    else throw data_truncated w

unfoldable pub upsert : Creator → M ℕ
unfolding call
upsert c = do id ← call (upsert_row (with_defaults c)); call (return id)

abbrev pub create_row : Creator → M ℕ
create_row c w =
    if not (accepts c)
    then throw data_truncated w
    else if any (has_key c.platform c.uid) w.creators
    then throw duplicate_key w
    else insert_row c w

unfoldable pub create : Creator → M ℕ
unfolding call
create c = do id ← call (create_row (with_defaults c)); call (return id)

-- An UPDATE of the row with this id, if there is one.
abbrev pub update_row : ℕ → (ℕ → Creator → Creator) → M (Unit {0})
update_row id f w =
    if any (λ c. c.id == id && not (accepts (f 0 c))) w.creators then throw data_truncated w else (
      ok tt,
      record w { creators = change (λ c. c.id == id) (f (w.outside.clock w.calls)) w.creators },
    )

-- The columns that Update writes.
abbrev pub overwritten : Creator → ℕ → Creator → Creator
overwritten c now old = record old {
  name = c.name;
  follower_count = c.follower_count;
  status = c.status;
  updated_at = now;
}

unfoldable pub update : Creator → M (Unit {0})
unfolding call
update c = call (update_row c.id (overwritten c))

abbrev pub with_status : String → ℕ → Creator → Creator
with_status status now old = record old { status = or_default "active" status; updated_at = now }

unfoldable pub update_status : ℕ → String → M (Unit {0})
unfolding call
update_status id status = call (update_row id (with_status status))

-- The foreign key of the videos refuses to delete their creator (MySQL's error 1451).
abbrev pub delete_row : ℕ → M ℕ
delete_row id w =
    if any (λ v. v.creator_id == id) w.videos && any (λ c. c.id == id) w.creators
    then throw conflict w
    else (
      ok (tally (λ c. c.id == id) w.creators),
      record w { creators = keep (λ c. not (c.id == id)) w.creators },
    )

unfoldable pub delete_by_id : ℕ → M ℕ
unfolding call
delete_by_id id = do affected ← call (delete_row id); call (return affected)

abbrev pub found : Option Creator → M Creator
found none = throw no_rows
found (some c) = return c

unfoldable pub find_by_id : ℕ → M Creator
unfolding call
find_by_id id = call (λ w. found (first (λ c. c.id == id) w.creators) w)

unfoldable pub find_by_platform_uid : String → String → M Creator
unfolding call
find_by_platform_uid platform uid =
    call (λ w. found (first (has_key (or_default "bilibili" platform) uid) w.creators) w)

abbrev pub is_active : Creator → Bool
is_active c = str_eq c.status "active"

abbrev pub by_id : Creator → Creator → Bool
by_id a b = ltb a.id b.id

-- The video files of a video, and the sum of their sizes.
abbrev video_files : List VideoFile → Video → List VideoFile
video_files files v = keep (λ f. f.video_id == v.id && is_video f.type) files

abbrev sum_sizes : List VideoFile → ℤ
sum_sizes [] = pos 0
sum_sizes (f ∷ rest) = f.size_bytes +ℤ sum_sizes rest

abbrev sum_videos : List VideoFile → List Video → ℤ
sum_videos files [] = pos 0
sum_videos files (v ∷ rest) = sum_sizes (video_files files v) +ℤ sum_videos files rest

-- The LEFT JOINs and the GROUP BY: how many videos of the creator have a file, and their bytes.
abbrev counted : World → Creator → Creator
counted w c =
    let videos = keep (λ v. v.creator_id == c.id) w.videos in
    record c {
      local_video_count =
          pos (tally (λ v. any (λ f. f.video_id == v.id && is_video f.type) w.files) videos);
      storage_bytes = sum_videos w.files videos;
    }

unfoldable pub list_active : ℤ → M (List Creator)
unfolding call
list_active limit = call (λ w. (
  ok (map (counted w) (take (limit_or 50 limit) (sort_by by_id (keep is_active w.creators)))),
  w,
))

-- The rows behind an id that pass a test, in the order of their ids.
unfoldable pub page_after : (Creator → Bool) → ℕ → ℤ → List Creator → List Creator
page_after p last limit creators =
    take (limit_or 50 limit) (sort_by by_id (keep (λ c. p c && ltb last c.id) creators))

unfoldable pub list_active_after : ℕ → ℤ → M (List Creator)
unfolding call page_after
list_active_after last limit = call (λ w. (ok (page_after is_active last limit w.creators), w))

abbrev pub in_library : VideoState → Bool
in_library downloaded = true
in_library stable = true
in_library out_of_print = true
in_library _ = false

-- A creator with a video in the library, which has a video file.
abbrev pub has_library : World → Creator → Bool
has_library w c =
    any
      (λ v.
        v.creator_id == c.id
        && in_library v.state
        && any (λ f. f.video_id == v.id && is_video f.type) w.files)
      w.videos

unfoldable pub list_for_library_after : ℕ → ℤ → M (List Creator)
unfolding call page_after
list_for_library_after last limit =
    call (λ w. (ok (page_after (has_library w) last limit w.creators), w))

unfoldable pub count_active : M ℕ
unfolding call
count_active = call (λ w. (ok (tally is_active w.creators), w))
