-- ===== src/Jobs/Enqueue.antt =====
-- internal/repo/mysql/job_repo.go: Enqueue with hasActiveJob, ListRecent and CountByStatuses, over
-- the table jobs. An empty status of a job, which no caller gives, is left out.
use Prim.Native.String.{String}
use fetch_bilibili.Prelude.{
  ℕ, suc, ◌-◌, ltb, ◌==◌, Bool, true, false, not, ◌&&◌, ◌||◌, Option, none, some, List, [], ◌∷◌,
  map, keep, tally, take, any, if◌then◌else◌,
}
use fetch_bilibili.Prelude.Int.{ℤ, pos, negsuc}
use fetch_bilibili.Prelude.Sort.{sort_by}
use fetch_bilibili.Repo.Models.{
  Job, JobType, fetch, download, check, cleanup, discover, other, JobStatus, queued, running,
  success, failed, JobListFilter,
}
use fetch_bilibili.Repo.Payload.{
  Value, int64, int, float64, json_number, string, null, Payload, lookup, payload_int64,
}
use fetch_bilibili.Repo.Videos.{limit_or}
use fetch_bilibili.World.{
  Error, data_truncated, job_already_active, Result, ok, err, Outside, World, M, ◌>>=◌, return,
  throw, call,
}
use fetch_bilibili.Jobs.Table.{is_queued, is_running, new_row, insert_job, update_status}
pub mod Single
pub mod Overlapped

-- The ENUM of the column jobs.type (migrations/00003_candidate_discovery.sql).
abbrev pub accepts_type : JobType → Bool
accepts_type (other s) = false
accepts_type _ = true

abbrev pub same_type : JobType → JobType → Bool
same_type fetch fetch = true
same_type download download = true
same_type check check = true
same_type cleanup cleanup = true
same_type discover discover = true
same_type _ _ = false

abbrev pub is_active : JobStatus → Bool
is_active s = is_queued s || is_running s

-- The number that the column's `$.video_id` is cast to, with `none` for NULL.
abbrev pub as_unsigned : ℤ → ℕ
as_unsigned (pos n) = n
as_unsigned (negsuc n) = 18446744073709551615 - n

abbrev pub cast_value : Outside → Option Value → Option ℕ
cast_value o none = none
cast_value o (some (int64 z)) = some (as_unsigned z)
cast_value o (some (int z)) = some (as_unsigned z)
cast_value o (some (float64 z)) = some (as_unsigned z)
cast_value o (some (json_number s)) = some (o.cast_unsigned s)
cast_value o (some (string s)) = some (o.cast_unsigned s)
cast_value o (some null) = some (o.cast_unsigned "null")

abbrev pub equals : ℕ → Option ℕ → Bool
equals n none = false
equals n (some m) = m == n

-- The condition on the video, which is there only for a download with a valid id.
abbrev pub of_video : Outside → Option ℤ → Job → Bool
of_video o (some (pos (suc n))) j = equals (suc n) (cast_value o (lookup "video_id" j.payload))
of_video o _ j = true

abbrev pub same_target : Outside → JobType → Payload → Job → Bool
same_target o download payload j = of_video o (payload_int64 o.parse_int payload "video_id") j
same_target o _ payload j = true

unfoldable pub has_active_job : JobType → Payload → M Bool
unfolding call payload_int64
has_active_job type payload = call (λ w. (
  ok (
      any (λ j. same_type j.type type && is_active j.status && same_target w.outside type payload j)
        w.jobs),
  w,
))

abbrev pub insert_row : Job → M ℕ
insert_row job w =
    if accepts_type job.type
    then (
      ok w.next_job_id,
      record w {
        jobs = insert_job w.next_job_id (w.outside.clock w.calls) job w.jobs;
        next_job_id = suc w.next_job_id;
      },
    )
    else throw data_truncated w

-- The two statements of Enqueue: the check for an active job, and the INSERT.
abbrev pub check_active : Job → M Bool
check_active job =
    if is_active job.status then has_active_job job.type job.payload else return false

abbrev pub insert_unless : Bool → Job → M ℕ
insert_unless exists job =
    if exists then throw job_already_active else (do id ← call (insert_row job); call (return id))

unfoldable pub enqueue : Job → M ℕ
unfolding call has_active_job
enqueue job = do exists ← check_active job; insert_unless exists job

abbrev pub same_status : JobStatus → JobStatus → Bool
same_status queued queued = true
same_status running running = true
same_status success success = true
same_status failed failed = true
same_status _ _ = false

abbrev pub with_status : Option JobStatus → Job → Bool
with_status none j = true
with_status (some s) j = same_status j.status s

abbrev pub with_type : Option JobType → Job → Bool
with_type none j = true
with_type (some t) j = same_type j.type t

unfoldable pub list_recent : JobListFilter → M (List Job)
unfolding call
list_recent filter = call (λ w. (
  ok (
      take (limit_or 20 filter.limit) (
        sort_by (λ a b. ltb b.id a.id)
          (keep (λ j. with_status filter.status j && with_type filter.type j) w.jobs))),
  w,
))

unfoldable pub count_by_statuses : List JobStatus → M ℕ
unfolding call
count_by_statuses [] = return 0
count_by_statuses (s ∷ rest) =
    call (λ w. (ok (tally (λ j. any (same_status j.status) (s ∷ rest)) w.jobs), w))

-- UpdateStatus, as a statement that may fail.
unfoldable pub write_status : ℕ → JobStatus → String → M (Unit {0})
unfolding call
write_status id status msg =
    call (λ w.
      (ok tt, record w { jobs = update_status id status msg (w.outside.clock w.calls) w.jobs }))
