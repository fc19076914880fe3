-- ===== src/Worker/Fetch.antt =====
-- internal/worker/handler.go: handleFetch.
use Prim.Native.String.{String}
use fetch_bilibili.Prelude.{
  ℕ, suc, Bool, true, false, not, ◌&&◌, ◌||◌, Option, none, some, List, [], ◌∷◌, if◌then◌else◌,
}
use fetch_bilibili.Prelude.Int.{ℤ, pos}
use fetch_bilibili.Repo.Models.{VideoState, new, Video, VideoMeta, Creator}
use fetch_bilibili.Repo.Payload.{Payload, payload_int64}
use fetch_bilibili.Repo.Creators as Creators
use fetch_bilibili.Repo.Creators.{list_active}
use fetch_bilibili.Repo.Videos as Videos
use fetch_bilibili.Repo.Videos.{same_state}
use fetch_bilibili.Repo.Listing.{upsert}
use fetch_bilibili.Repo.Models.{Job, download}
use fetch_bilibili.Jobs.Enqueue.{enqueue}
use fetch_bilibili.Jobs.Service.{job_of}
use fetch_bilibili.Repo.Payload.{int64}
use fetch_bilibili.World.{
  Error, not_initialized, job_already_active, Result, ok, err, World, M, next, ◌>>=◌, ◌>>◌, return,
  throw, attempt,
}
use fetch_bilibili.Worker.Handler.{Handler}
use fetch_bilibili.Worker.Waiting.{wait_for_creator}
use fetch_bilibili.Worker.Download.{positive}
use fetch_bilibili.Worker.Check.{latest, report}
pub mod Queues

-- The client's answer.
unfoldable pub list_videos : String → M (List VideoMeta)
list_videos uid w = (w.outside.list_videos w.calls uid, record w { calls = suc w.calls })

abbrev pub video_of : Creator → VideoMeta → Video
video_of c m = record {
  id = 0;
  platform = "bilibili";
  video_id = m.video_id;
  creator_id = c.id;
  title = m.title;
  description = m.description;
  publish_time = m.publish_time;
  duration = m.duration;
  cover_url = m.cover_url;
  view_count = m.view_count;
  favorite_count = m.favorite_count;
  state = new;
  out_of_print_at = 0;
  stable_at = 0;
  last_check_at = 0;
  created_at = 0;
  updated_at = 0;
}

abbrev pub download_job : ℕ → Job
download_job id = job_of download (("video_id", int64 (pos id)) ∷ [])

-- The error that is kept for the end, if there is one: a job that is there already is none.
abbrev pub queued : Result ℕ → Option Error
queued (ok id) = none
queued (err job_already_active) = none
queued (err e) = some e

abbrev pub queue_download : Handler → ℕ → M (Option Error)
queue_download h id =
    if not h.has_jobs
    then return none
    else (attempt (enqueue (download_job id)) >>= λ r. return (queued r))

-- A video that was there already is downloaded only if it is still new.
abbrev pub if_new : Handler → ℕ → Result Video → M (Option Error)
if_new h id (err e) = return (some e)
if_new h id (ok current) = if same_state current.state new then queue_download h id else return none

abbrev pub saved : Handler → Result (ℕ × Bool) → M (Option Error)
saved h (err e) = return (some e)
saved h (ok (id, created)) =
    if created then queue_download h id else (attempt (Videos.find_by_id id) >>= if_new h id)

unfoldable pub fetch_video : Handler → Creator → VideoMeta → M (Option Error)
unfolding upsert Videos.find_by_id enqueue
fetch_video h c m = attempt (upsert (video_of c m)) >>= saved h

unfoldable pub fetch_videos : Handler → Creator → Option Error → List VideoMeta → M (Option Error)
fetch_videos h c last [] = return last
fetch_videos h c last (m ∷ rest) = do e ← fetch_video h c m; fetch_videos h c (latest last e) rest

abbrev pub listed : Handler → Creator → Option Error → Result (List VideoMeta) → M (Option Error)
listed h c last (err e) = return (some e)
listed h c last (ok metas) = fetch_videos h c last metas

-- An error of the wait ends the job.
unfoldable pub fetch_creators : Handler → Option Error → List Creator → M (Unit {0})
unfolding list_videos fetch_videos
fetch_creators h last [] = report last
fetch_creators h last (c ∷ rest) = do
  wait_for_creator h c.id
  r ← attempt (list_videos c.uid)
  last' ← listed h c last r
  fetch_creators h last' rest

abbrev pub to_fetch : Handler → Option ℕ → M (List Creator)
to_fetch h (some id) = Creators.find_by_id id >>= λ c. return (c ∷ [])
to_fetch h none = list_active h.fetch_limit

unfoldable pub handle_fetch : Handler → Payload → M (Unit {0})
unfolding fetch_creators
handle_fetch h payload =
    if not h.has_creators || not h.has_videos || not h.has_client
    then throw not_initialized
    else (do
      cs ← (λ w. to_fetch h (positive (payload_int64 w.outside.parse_int payload "creator_id")) w)
      fetch_creators h none cs)
