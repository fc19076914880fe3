-- ===== src/App/Recovery.antt =====
-- internal/app/app.go: recoverRuntimeState. What is counted for the log is left out.
use Prim.Native.String.{String}
use fetch_bilibili.Prelude.{
  ℕ, zero, suc, ◌==◌, ltb, Bool, true, false, not, ◌&&◌, ◌||◌, Option, none, some, List, [], ◌∷◌,
  member, if◌then◌else◌,
}
use fetch_bilibili.Prelude.Int.{ℤ, pos, ltb_ℤ}
use fetch_bilibili.Repo.Models.{
  Job, JobType, download, JobStatus, queued, running, VideoState, new, downloading, downloaded,
  Video,
}
use fetch_bilibili.Repo.Payload.{payload_int64}
use fetch_bilibili.Repo.Videos.{update_state}
use fetch_bilibili.Repo.Listing as Videos
use fetch_bilibili.Repo.VideoFiles.{delete_files_by_video_id}
use fetch_bilibili.Jobs.Enqueue as Jobs
use fetch_bilibili.Jobs.Enqueue.{write_status, is_active}
use fetch_bilibili.Library.Path.{store_video_path}
use fetch_bilibili.Worker.Deletion.{stat_size}
use fetch_bilibili.Worker.Download.{positive}
use fetch_bilibili.World.{
  Error, not_exist, Result, ok, err, Outside, World, M, next, ◌>>=◌, ◌>>◌, return, throw, attempt,
}
pub mod Requeue
pub mod States

pub record App : Type 0 where
  pub has_jobs : Bool
  pub has_videos : Bool
  pub has_video_files : Bool
  pub storage_root : String

unfoldable pub requeue_each : List Job → M (Unit {0})
unfolding write_status
requeue_each [] = return tt
requeue_each (j ∷ rest) = do write_status j.id queued "启动恢复后重新入队"; requeue_each rest

unfoldable pub requeue_running_jobs : App → M (Unit {0})
unfolding requeue_each Jobs.list_recent
requeue_running_jobs a = if not a.has_jobs then return tt else (do
  js ← Jobs.list_recent (record { limit = pos 500; status = some running; type = none })
  requeue_each js)

abbrev pub video_path : App → Video → World → String
video_path a v w = store_video_path w.outside.join a.storage_root v.platform v.video_id

abbrev pub of_state : VideoState → M (List Video)
of_state s = Videos.list_recent (record { limit = pos 500; creator_id = pos 0; state = some s })

-- The videos of the active jobs.
abbrev pub add_video_id : Option ℕ → List ℕ → List ℕ
add_video_id none ids = ids
add_video_id (some id) ids = id ∷ ids

abbrev pub active_downloads : Outside → List Job → List ℕ
active_downloads o [] = []
active_downloads o (j ∷ rest) =
    let more = active_downloads o rest in
    if is_active j.status
    then add_video_id (positive (payload_int64 o.parse_int j.payload "video_id")) more
    else more

abbrev pub list_downloads : App → M (List ℕ)
list_downloads a = if not a.has_jobs then return [] else (do
  js ← Jobs.list_recent (record { limit = pos 1000; status = none; type = some download })
  (λ w. (ok (active_downloads w.outside js), w)))

abbrev pub next_state : Result ℕ → VideoState
next_state (ok size) = if ltb 0 size then downloaded else new
next_state (err e) = new

unfoldable pub recover_each : App → List ℕ → List Video → M (Unit {0})
unfolding update_state stat_size
recover_each a active [] = return tt
recover_each a active (v ∷ rest) = do
  (if member v.id active
      then return tt
      else (do r ← attempt (λ w. stat_size (video_path a v w) w); update_state v.id (next_state r)))
  recover_each a active rest

abbrev pub recover_listed : App → List Video → M (Unit {0})
recover_listed a [] = return tt
recover_listed a (v ∷ vs) = do active ← list_downloads a; recover_each a active (v ∷ vs)

unfoldable pub recover_downloading_videos : App → M (Unit {0})
unfolding recover_each Videos.list_recent Jobs.list_recent payload_int64
recover_downloading_videos a =
    if not a.has_videos then return tt else (of_state downloading >>= recover_listed a)

-- The file is lost, with its records.
abbrev pub forget : App → Video → M (Unit {0})
forget a v = do
  (if a.has_video_files then (delete_files_by_video_id v.id >>= λ n. return tt) else return tt)
  update_state v.id new

abbrev pub repair : App → Video → Result ℕ → M (Unit {0})
repair a v (ok size) = if ltb 0 size then return tt else forget a v
repair a v (err not_exist) = forget a v
repair a v (err e) = throw e

unfoldable pub repair_each : App → List Video → M (Unit {0})
unfolding update_state stat_size delete_files_by_video_id
repair_each a [] = return tt
repair_each a (v ∷ rest) = do
  r ← attempt (λ w. stat_size (video_path a v w) w)
  repair a v r
  repair_each a rest

unfoldable pub recover_missing_downloaded_videos : App → M (Unit {0})
unfolding repair_each Videos.list_recent
recover_missing_downloaded_videos a =
    if not a.has_videos then return tt else (of_state downloaded >>= repair_each a)

unfoldable pub recover_runtime_state : App → M (Unit {0})
unfolding requeue_running_jobs recover_missing_downloaded_videos recover_downloading_videos
recover_runtime_state a = do
  requeue_running_jobs a
  recover_missing_downloaded_videos a
  recover_downloading_videos a
