-- ===== src/Examples/Store.antt =====
-- A cleanup, a download and a check over a small store.
use package.text.Mathlib.Text.{◌==◌ as str_eq}
use fetch_bilibili.Prelude.{ℕ, ◌≡◌, refl, arith, true, false, none, some, [], ◌∷◌, ◌⊎◌, All, ◌≢◌}
use fetch_bilibili.Prelude.Int.{pos, ◌≤ℤ◌, ◌+ℤ◌, ◌-ℤ◌, ◌*ℤ◌, i64}
use fetch_bilibili.Prelude.Sort.{sort_by, insert_by, sort_by-perm, sort_by-Sorted}
use fetch_bilibili.World.{Error, permanent, ok, err, Outside, World, call, now, publish}
use fetch_bilibili.Repo.Models.{
  VideoState, downloading, downloaded, out_of_print, Video, VideoFile, FileType, Creator,
  CleanupCandidate,
}
use fetch_bilibili.Repo.Videos.{
  list_cleanup_candidates, update_state, find_by_id, count_by_state, join_files, join_creators,
  join_videos,
}
use fetch_bilibili.Repo.Videos.States.{state_of}
use fetch_bilibili.Repo.VideoFiles.{delete_file_by_id, count_files_by_video_id}
use fetch_bilibili.Worker.Handler.{Handler}
use fetch_bilibili.Worker.Usage.{usage}
use fetch_bilibili.Worker.Policy.{threshold, cleanup_target, percent}
use fetch_bilibili.Worker.Publishing.{publish_video_changed}
use fetch_bilibili.Worker.Snapshot.{
  scan_storage_usage, walk, stat_then, seed_storage_snapshot, count_rare_videos,
  publish_storage_changed, add_delta, refresh_snapshot, apply_storage_delta,
}
use fetch_bilibili.Worker.Ranking.{less_cleanup_candidate, is_retained, filter_cleanup_candidates}
use fetch_bilibili.Worker.Deletion.{
  stat_size, remove, delete_on_disk, mark_deleted, delete_rows, delete_cleanup_candidate,
}
use fetch_bilibili.Worker.Deletion.Freed.{FreesFor, delete_cleanup_candidate-Frees}
use fetch_bilibili.Worker.Cleanup.{
  StableSort, no_progress, clean, conclude, clean_to_target, handle_cleanup,
}
use fetch_bilibili.Worker.Cleanup.Target.{handle_cleanup_reaches}
use fetch_bilibili.Worker.Cleanup.Selection.{Split, NotBefore, clean_takes_first}
use fetch_bilibili.Worker.Download.{fetch_file, download_failed}
use fetch_bilibili.Worker.Download.Outcome.{
  IsOutcome, fetch_file-IsOutcome, permanent_failure_stays_downloading,
}

abbrev pub handler : Handler
handler = record {
  has_creators = true;
  has_videos = true;
  has_video_files = true;
  has_jobs = true;
  has_client = true;
  has_publisher = true;
  has_discovery_runner = false;
  storage_root = "/data";
  stable_days = pos 30;
  fetch_limit = pos 50;
  check_limit = pos 50;
  per_limit_qps = pos 0;
  storage_max = pos 120;
  storage_safe = pos 100;
  keep_rare = true;
  cleanup_retention = pos 0;
  cleanup_limit = pos 200;
}

-- Nothing fails, the platform has every video, and the clock shows the number of the call.
abbrev pub calm : Outside
calm = record {
  fault = λ _. none;
  clock = λ n. n;
  available = λ n v. ok true;
  download = λ n v. ok (pos 30, 30);
  list_videos = λ n uid. ok [];
  resolve_uid = λ n name. err Error.not_found;
  resolve_name = λ n uid. err Error.not_found;
  trim = λ s. s;
  join = λ parts. "/data/store/bilibili/BV1.mp4";
  parse_int = λ s. none;
  cast_unsigned = λ s. 0;
  is_like = λ keyword s. true;
  same_text = str_eq;
}

abbrev pub video : ℕ → VideoState → Video
video id s = record {
  id = id;
  platform = "bilibili";
  video_id = "BV1";
  creator_id = 1;
  title = "a";
  description = "";
  publish_time = 5;
  duration = 60;
  cover_url = "";
  view_count = pos 10;
  favorite_count = pos 1;
  state = s;
  out_of_print_at = 0;
  stable_at = 0;
  last_check_at = 0;
  created_at = 1;
  updated_at = 1;
}

abbrev file : VideoFile
file = record {
  id = 4;
  video_id = 1;
  path = "/data/store/bilibili/BV1.mp4";
  size_bytes = pos 150;
  checksum = "";
  type = FileType.video;
  created_at = 2;
}

abbrev pub owner : Creator
owner = record {
  id = 1;
  platform = "bilibili";
  uid = "9";
  name = "b";
  follower_count = pos 100;
  local_video_count = pos 1;
  storage_bytes = pos 150;
  status = "active";
  created_at = 1;
  updated_at = 1;
}

abbrev pub candidate : CleanupCandidate
candidate = record {
  video_id = 1;
  source_video_id = "BV1";
  platform = "bilibili";
  title = "a";
  state = downloaded;
  creator_id = 1;
  creator_name = "b";
  creator_follower_count = pos 100;
  view_count = pos 10;
  favorite_count = pos 1;
  file_id = 4;
  file_path = "/data/store/bilibili/BV1.mp4";
  file_size_bytes = pos 150;
  file_created_at = 2;
}

abbrev pub rare_candidate : CleanupCandidate
rare_candidate = record candidate { video_id = 2; state = out_of_print; file_id = 5 }

-- Video 1 with its file of 150 bytes, and video 2, which is being downloaded.
abbrev pub full_store : World
full_store = record {
  outside = calm;
  calls = 0;
  global_limit = none;
  per_limiters = [];
  snapshot = record {
    initialized = false;
    used_bytes = pos 0;
    file_count = pos 0;
    rare_videos = pos 0;
    dirty_rare = false;
  };
  videos = video 1 downloaded ∷ video 2 downloading ∷ [];
  files = file ∷ [];
  next_file_id = 5;
  creators = owner ∷ [];
  jobs = [];
  candidates = [];
  candidate_sources = [];
  score_details = [];
  next_video_id = 3;
  next_creator_id = 2;
  next_job_id = 1;
  next_candidate_id = 1;
  next_source_id = 1;
  next_detail_id = 1;
  disk = record { path = "/data/store/bilibili/BV1.mp4"; size = 150 } ∷ [];
  published = [];
}

abbrev pub insertion : StableSort
insertion = record {
  sort = sort_by;
  sort-perm = sort_by-perm;
  sort-Sorted = λ lt cs o. sort_by-Sorted lt o cs;
}

no_fault : none ≢ some Error.not_exist
no_fault e = cc

handle_cleanup_reaches_example :
    (threshold handler ≤ℤ pos 0)
    ⊎ (pos (usage (handle_cleanup insertion handler full_store).1.disk) ≤ℤ threshold handler)
unfolding handle_cleanup scan_storage_usage walk stat_then clean_to_target cleanup_target threshold
    seed_storage_snapshot count_rare_videos list_cleanup_candidates join_files join_creators
    join_videos sort_by insert_by filter_cleanup_candidates is_retained less_cleanup_candidate clean
    conclude delete_cleanup_candidate delete_on_disk stat_size remove delete_rows mark_deleted
    delete_file_by_id count_files_by_video_id update_state find_by_id publish_video_changed
    publish_storage_changed add_delta refresh_snapshot apply_storage_delta percent count_by_state
    call now publish i64 ◌+ℤ◌ ◌-ℤ◌ ◌*ℤ◌
handle_cleanup_reaches_example =
    handle_cleanup_reaches insertion handler full_store
      (record { root_there = no_fault; store_there = no_fault }) (omega arith) refl

clean_takes_first_example :
    (r : Split handler
      (pos 50)
      (sort_by less_cleanup_candidate (rare_candidate ∷ candidate ∷ []))
      no_progress
      full_store)
    × All (λ d. All (NotBefore d) r.untried) r.tried
clean_takes_first_example =
    clean_takes_first insertion handler (pos 50) (rare_candidate ∷ candidate ∷ []) no_progress
      full_store

delete_cleanup_candidate-Frees_example :
    FreesFor
      (delete_cleanup_candidate handler candidate full_store).0
      150
      (usage (delete_cleanup_candidate handler candidate full_store).1.disk)
delete_cleanup_candidate-Frees_example = delete_cleanup_candidate-Frees handler candidate full_store

fetch_file-IsOutcome_example :
    IsOutcome 2 "/data/store/bilibili/BV2.mp4"
      (fetch_file handler 2 (video 2 downloading) "/data/store/bilibili/BV2.mp4" full_store)
fetch_file-IsOutcome_example =
    fetch_file-IsOutcome handler 2 (video 2 downloading) "/data/store/bilibili/BV2.mp4" full_store
      refl

permanent_failure_stays_downloading_example :
    ((download_failed handler 2 (video 2 downloading) (permanent (pos 62002)) full_store).0
      ≡ err (permanent (pos 62002)))
    × (state_of 2
          (download_failed handler 2
            (video 2 downloading)
            (permanent (pos 62002))
            full_store).1.videos
        ≡ some downloading)
permanent_failure_stays_downloading_example =
    permanent_failure_stays_downloading handler 2 (video 2 downloading) (pos 62002) full_store refl
