-- ===== src/Jobs/Service.antt =====
-- internal/jobs/service.go: a job that is already active is no error, and a new job is announced.
use fetch_bilibili.Prelude.{ℕ, ◌==◌, Bool, not, [], ◌∷◌, if◌then◌else◌}
use fetch_bilibili.Prelude.Int.{pos}
use fetch_bilibili.Repo.Models.{Job, JobType, fetch, download, check, cleanup, discover, queued}
use fetch_bilibili.Repo.Payload.{int64, Payload}
use fetch_bilibili.World.{
  job_already_active, Result, ok, err, M, ◌>>=◌, return, throw, attempt, now, publish, job_changed,
}
use fetch_bilibili.Jobs.Enqueue.{enqueue}

-- Whether there is a publisher.
pub record Service : Type 0 where
  pub has_publisher : Bool

unfoldable pub publish_job_changed : Service → Job → M (Unit {0})
publish_job_changed s job = if not s.has_publisher then return tt else (do
  at ← now
  publish (job_changed (if job.updated_at == 0 then at else job.updated_at) job))

abbrev pub created : ℕ → ℕ → Job → Job
created id at job = record job {
  id = id;
  updated_at = at;
  created_at = if job.created_at == 0 then at else job.created_at;
}

abbrev pub announced : Service → Job → Result ℕ → M (Unit {0})
announced s job (ok id) = do at ← now; publish_job_changed s (created id at job)
announced s job (err job_already_active) = return tt
announced s job (err e) = throw e

unfoldable pub enqueue_job : Service → Job → M (Unit {0})
unfolding publish_job_changed
enqueue_job s job = do r ← attempt (enqueue job); announced s job r

abbrev pub job_of : JobType → Payload → Job
job_of type payload = record {
  id = 0;
  type = type;
  status = queued;
  payload = payload;
  error_msg = "";
  not_before = 0;
  started_at = 0;
  finished_at = 0;
  created_at = 0;
  updated_at = 0;
}

unfoldable pub enqueue_fetch : Service → M (Unit {0})
unfolding enqueue_job
enqueue_fetch s = enqueue_job s (job_of fetch [])

unfoldable pub enqueue_check : Service → M (Unit {0})
unfolding enqueue_job
enqueue_check s = enqueue_job s (job_of check [])

unfoldable pub enqueue_cleanup : Service → M (Unit {0})
unfolding enqueue_job
enqueue_cleanup s = enqueue_job s (job_of cleanup [])

unfoldable pub enqueue_discover : Service → M (Unit {0})
unfolding enqueue_job
enqueue_discover s = enqueue_job s (job_of discover [])

unfoldable pub enqueue_fetch_creator : Service → ℕ → M (Unit {0})
unfolding enqueue_job
enqueue_fetch_creator s creator_id =
    enqueue_job s (job_of fetch (("creator_id", int64 (pos creator_id)) ∷ []))

unfoldable pub enqueue_download : Service → ℕ → M (Unit {0})
unfolding enqueue_job
enqueue_download s video_id =
    enqueue_job s (job_of download (("video_id", int64 (pos video_id)) ∷ []))

unfoldable pub enqueue_check_video : Service → ℕ → M (Unit {0})
unfolding enqueue_job
enqueue_check_video s video_id =
    enqueue_job s (job_of check (("video_id", int64 (pos video_id)) ∷ []))
