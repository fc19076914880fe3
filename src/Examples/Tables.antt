-- ===== src/Examples/Tables.antt =====
-- The creators' file, the jobs, a fetch, the pages of the exporter and the recovery over a small store.
use Prim.Native.String.{String}
use fetch_bilibili.Prelude.{
  ℕ, ◌==◌, ◌≡◌, ◌≢◌, refl, arith, true, false, not, ◌||◌, none, some, [], ◌∷◌, every, tally,
}
use fetch_bilibili.Prelude.Int.{pos}
use fetch_bilibili.Repo.Models.{Creator, Job, running, downloading, downloaded, VideoMeta}
use fetch_bilibili.World.{no_rows, ok, Outside, World}
use fetch_bilibili.Repo.Videos.States.{state_of}
use fetch_bilibili.Repo.Creators.{upsert, create, update, update_status, delete_by_id}
use fetch_bilibili.Repo.Creators.Keys.{IsKeyed}
use fetch_bilibili.Repo.Creators.Writes.{creators_stay-IsKeyed}
use fetch_bilibili.Creator.Service as Creators
use fetch_bilibili.Creator.Service.{pause_missing_active}
use fetch_bilibili.Creator.Service.Counting.{missing, HasPaused, pause_missing_active-HasPaused}
use fetch_bilibili.Creator.Service.Removed.{IsGone}
use fetch_bilibili.Creator.Syncer.{FileSyncer, Reading, sync_once}
use fetch_bilibili.Creator.Syncer.Removed.{sync_once_keeps_removed}
use fetch_bilibili.Jobs.Enqueue.{enqueue}
use fetch_bilibili.Jobs.Enqueue.Single.{IsSingle, one_active_job}
use fetch_bilibili.Library.Exporter.{list_creators_for_rebuild}
use fetch_bilibili.Library.Exporter.Pages.{library_creators, rebuild_lists_all}
use fetch_bilibili.Worker.Fetch.{download_job, handle_fetch}
use fetch_bilibili.Worker.Fetch.Queues.{justified, IsNumbered, fetch_keeps_states, fetch_queues_new}
use fetch_bilibili.App.Recovery.{App, requeue_running_jobs, recover_runtime_state}
use fetch_bilibili.App.Recovery.Requeue.{runs, requeue_leaves_none}
use fetch_bilibili.App.Recovery.States.{may_become, recovery_states}
use fetch_bilibili.Examples.Store.{handler, calm, owner, full_store}

-- The platform lists a video that is there and one that is not.
abbrev meta : String → VideoMeta
meta id = record {
  video_id = id;
  title = "b";
  description = "";
  publish_time = 6;
  duration = 60;
  cover_url = "";
  view_count = pos 20;
  favorite_count = pos 2;
}

abbrev listing : Outside
listing = record calm { list_videos = λ n uid. ok (meta "BV1" ∷ meta "BV7" ∷ []) }

abbrev removed_store : World
removed_store = record full_store { creators = record owner { status = "removed" } ∷ [] }

no_empty_answer : (n : ℕ) → none ≢ some no_rows
no_empty_answer n e = cc

IsKeyed-store : IsKeyed full_store
IsKeyed-store = record { keys = refl; old = refl }

creators_stay-IsKeyed_example :
    ((c : Creator)
      → IsKeyed (upsert c full_store).1
        × IsKeyed (create c full_store).1
        × IsKeyed (update c full_store).1)
    × ((id : ℕ) (s : String)
        → IsKeyed (update_status id s full_store).1 × IsKeyed (delete_by_id id full_store).1)
creators_stay-IsKeyed_example = creators_stay-IsKeyed full_store IsKeyed-store

IsGone-store : IsGone 1 removed_store
IsGone-store = record {
  is_keyed = record { keys = refl; old = refl };
  rows = refl;
  given_out = omega arith;
  honest = no_empty_answer;
}

abbrev service : Creators.Service
service = record { has_resolver = true; has_publisher = true }

abbrev file_syncer : FileSyncer
file_syncer = record { last_mod_time = 0; last_size = 0; missing_logged = false }

-- The file names the removed creator, and another one.
abbrev reading : Reading
reading = record {
  stat = ok (record { mod_time = 5; size = 40 });
  entries = ok (
      record { uid = "9"; name = "b"; platform = ""; status = "active" }
      ∷ record { uid = "10"; name = "c"; platform = ""; status = "" }
      ∷ []);
}

sync_once_keeps_removed_example :
    IsGone 1 (sync_once 9 service file_syncer true reading removed_store).1
sync_once_keeps_removed_example =
    sync_once_keeps_removed 1 9 service file_syncer true reading removed_store IsGone-store

IsSingle-store : IsSingle full_store
IsSingle-store = record {
  one_of = λ t d. omega arith;
  one_download = λ n p. omega arith;
  alike = λ s n e. absurd cc;
}

one_active_job_example : IsSingle (enqueue (download_job 1) full_store).1
one_active_job_example = one_active_job (download_job 1) full_store IsSingle-store

rebuild_lists_all_example :
    (list_creators_for_rebuild 2 (pos 1) full_store).0 ≡ ok (some (library_creators full_store))
rebuild_lists_all_example =
    rebuild_lists_all 2 (pos 1) full_store (refl, refl) (λ n. refl) (omega arith)

abbrev fetch_store : World
fetch_store = record full_store { outside = listing }

numbered : IsNumbered fetch_store
numbered = record { videos_old = refl; jobs_old = refl }

fetch_keeps_states_example :
    state_of 1 (handle_fetch handler [] fetch_store).1.videos ≡ some downloaded
fetch_keeps_states_example = fetch_keeps_states handler [] fetch_store 1 downloaded numbered refl

fetch_queues_new_example :
    every
      (justified fetch_store.next_job_id (handle_fetch handler [] fetch_store).1.videos)
      (handle_fetch handler [] fetch_store).1.jobs
    ≡ true
fetch_queues_new_example = fetch_queues_new handler [] fetch_store numbered

abbrev app : App
app = record { has_jobs = true; has_videos = true; has_video_files = true; storage_root = "/data" }

abbrev running_job : ℕ → Job
running_job id = record (download_job 2) { id = id; status = running }

abbrev stopped_store : World
stopped_store = record full_store { jobs = running_job 3 ∷ running_job 4 ∷ [] }

requeue_leaves_none_example :
    ((requeue_running_jobs app stopped_store).0 ≡ ok tt)
    × (tally runs (requeue_running_jobs app stopped_store).1.jobs ≡ 0)
requeue_leaves_none_example = requeue_leaves_none app stopped_store refl (λ n. refl) (omega arith)

recovery_states_example :
    every
      (λ v. not (v.id == 2) || may_become downloading v.state)
      (recover_runtime_state app stopped_store).1.videos
    ≡ true
recovery_states_example = recovery_states app 2 downloading stopped_store refl

pause_missing_active-HasPaused_example :
    HasPaused [] (missing [] full_store) (pause_missing_active 2 service [] full_store)
pause_missing_active-HasPaused_example =
    pause_missing_active-HasPaused 2 service [] full_store (omega arith) (λ n. ground arith)
