-- ===== src/Worker/Download.antt =====
-- internal/worker/handler.go: handleDownload.
use Prim.Native.String.{String}
use package.text.Mathlib.Text.{◌==◌ as str_eq}
use fetch_bilibili.Prelude.{
  ℕ, zero, suc, Bool, true, false, not, ◌||◌, Option, none, some, List, [], ◌∷◌, ◌++◌,
  if◌then◌else◌,
}
use fetch_bilibili.Prelude.Int.{ℤ, pos, negsuc, leb_ℤ}
use fetch_bilibili.World.{
  Error, not_exist, permanent, not_initialized, no_root_dir, no_video_id, record_not_saved, Result,
  ok, err, DiskFile, World, M, next, ◌>>=◌, ◌>>◌, return, throw, call, attempt,
}
use fetch_bilibili.Repo.Payload.{Payload, payload_int64}
use fetch_bilibili.Repo.Models.{
  VideoState, new, downloading, downloaded, failed, Video, VideoFile, FileType,
}
use fetch_bilibili.Repo.Videos.{update_state, find_by_id, same_state}
use fetch_bilibili.Repo.VideoFiles.{create_file, delete_files_by_video_id}
use fetch_bilibili.Library.Path.{store_video_path}
use fetch_bilibili.Worker.Handler.{Handler}
use fetch_bilibili.Worker.Waiting.{wait_for_creator}
use fetch_bilibili.Worker.Publishing.{publish_video_changed}
use fetch_bilibili.Worker.Snapshot.{
  ensure_storage_snapshot_initialized, publish_storage_changed, StorageDelta,
}
use fetch_bilibili.Worker.Deletion.{stat_size, remove, without}
pub mod States
pub mod Outcome

-- The client's download: the file at the destination is replaced in one step, or nothing changes.
abbrev pub place : String → Result (ℤ × ℕ) → M ℤ
place dst (err e) w = (err e, w)
place dst (ok (reported, size)) w =
    (ok reported, record w { disk = without dst w.disk ++ record { path = dst; size = size } ∷ [] })

unfoldable pub client_download : String → String → M ℤ
client_download video_id dst w =
    place dst (w.outside.download w.calls video_id) (record w { calls = suc w.calls })

-- `_ = h.videos.UpdateState(...)`: what comes of it is ignored.
abbrev pub try_update_state : ℕ → VideoState → M (Result (Unit {0}))
try_update_state id state = attempt (update_state id state)

-- The state goes back to NEW, and the error is returned.
abbrev pub reset_and_fail : {A : Type 0} → ℕ → Error → M A
reset_and_fail id e = try_update_state id new >>= λ _. throw e

-- A failed download. One that the platform calls permanent marks the video as failed.
unfoldable pub download_failed : Handler → ℕ → Video → Error → M ℤ
download_failed h id v (permanent code) = do
  _ ← try_update_state id failed
  publish_video_changed h (record v { state = failed })
  throw (permanent code)
download_failed h id v e = reset_and_fail id e

abbrev pub or_else : {A : Type 0} → Result A → (Error → M A) → M A
or_else (ok a) f = return a
or_else (err e) f = f e

abbrev pub file_of : ℕ → String → ℤ → VideoFile
file_of id dst size = record {
  id = 0;
  video_id = id;
  path = dst;
  size_bytes = size;
  checksum = "";
  type = FileType.video;
  created_at = 0;
}

unfoldable pub record_failed : ℕ → String → Error → M ℕ
record_failed id dst e = do _ ← attempt (remove dst); reset_and_fail id (record_not_saved e)

-- What follows the mark DOWNLOADING.
unfoldable pub fetch_file : Handler → ℕ → Video → String → M (Unit {0})
fetch_file h id v dst = do
  waited ← attempt (wait_for_creator h v.creator_id)
  _ ← or_else waited (reset_and_fail id)
  fetched ← attempt (client_download v.video_id dst)
  size ← or_else fetched (download_failed h id v)
  recorded ← attempt (create_file (file_of id dst size))
  _ ← or_else recorded (record_failed id dst)
  update_state id downloaded
  publish_video_changed h (record v { state = downloaded })
  publish_storage_changed h (record { used_bytes = size; file_count = pos 1; rare_videos = pos 0 })

-- Whether the file of a video that counts as downloaded is there. If not, or if it is empty, its
-- file records are deleted.
abbrev forget_unless_there : ℕ → Result ℕ → M Bool
forget_unless_there id (ok zero) = do _ ← delete_files_by_video_id id; return false
forget_unless_there id (ok (suc n)) = return true
forget_unless_there id (err not_exist) = do _ ← delete_files_by_video_id id; return false
forget_unless_there id (err e) = throw e

unfoldable pub is_already_there : ℕ → Video → String → M Bool
is_already_there id v dst =
    if same_state v.state downloaded
    then (do found ← attempt (stat_size dst); forget_unless_there id found)
    else return false

abbrev video_path : Handler → Video → World → String
video_path h v w = store_video_path w.outside.join h.storage_root v.platform v.video_id

unfoldable pub download_video : Handler → ℕ → Video → String → M (Unit {0})
download_video h id v dst = do
  there ← is_already_there id v dst
  if there then return tt else (do
    ensure_storage_snapshot_initialized h
    call (return tt)
    update_state id downloading
    fetch_file h id v dst)

abbrev pub positive : Option ℤ → Option ℕ
positive (some (pos (suc n))) = some (suc n)
positive _ = none

abbrev download_id : Handler → Option ℕ → M (Unit {0})
download_id h none = throw no_video_id
download_id h (some id) = do v ← find_by_id id; (λ w. download_video h id v (video_path h v w) w)

unfoldable pub handle_download : Handler → Payload → M (Unit {0})
handle_download h payload =
    if not h.has_videos || not h.has_client || not h.has_video_files
    then throw not_initialized
    else if str_eq h.storage_root ""
    then throw no_root_dir
    else (λ w. download_id h (positive (payload_int64 w.outside.parse_int payload "video_id")) w)
