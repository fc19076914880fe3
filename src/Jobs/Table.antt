-- ===== src/Jobs/Table.antt =====
-- internal/repo/mysql/job_repo.go: FetchQueued, UpdateStatus and the INSERT of Enqueue, over the
-- jobs table. FetchQueued is one transaction that locks the rows it takes, and so one step.
use Prim.Native.String.{String}
use fetch_bilibili.Prelude.{
  ℕ, ltb, leb, ◌==◌, Bool, true, false, ◌&&◌, ◌||◌, List, [], ◌∷◌, ◌++◌, map, keep, take, member,
  if◌then◌else◌,
}
use fetch_bilibili.Prelude.Int.{ℤ}
use fetch_bilibili.Prelude.Sort.{sort_by}
use fetch_bilibili.Repo.Models.{Job, JobStatus, queued, running, success, failed}
use fetch_bilibili.Repo.Videos.{limit_or}

abbrev pub is_queued : JobStatus → Bool
is_queued queued = true
is_queued _ = false

abbrev pub is_running : JobStatus → Bool
is_running running = true
is_running _ = false

-- A queued job whose time has come; a time of 0 is NULL.
abbrev pub is_ready : ℕ → Job → Bool
is_ready now j = is_queued j.status && (j.not_before == 0 || leb j.not_before now)

abbrev pub by_id : Job → Job → Bool
by_id a b = ltb a.id b.id

-- The SELECT.
unfoldable pub select_ready : ℤ → ℕ → List Job → List Job
select_ready limit now table = take (limit_or 10 limit) (sort_by by_id (keep (is_ready now) table))

abbrev pub ids_of : List Job → List ℕ
ids_of jobs = map (λ j. j.id) jobs

abbrev pub mark_running : ℕ → List ℕ → Job → Job
mark_running now ids j =
    if member j.id ids then record j { status = running; started_at = now; updated_at = now } else j

abbrev pub started : ℕ → Job → Job
started at j = record j { status = running; started_at = at }

-- The jobs that FetchQueued returns at the time `at`, and the table after its transaction, in which
-- NOW() is `now`.
unfoldable pub fetch_queued : ℤ → ℕ → ℕ → List Job → List Job × List Job
unfolding select_ready
fetch_queued limit now at table = (
  map (started at) (select_ready limit now table),
  map (mark_running now (ids_of (select_ready limit now table))) table,
)

abbrev finish_time : JobStatus → ℕ → ℕ → ℕ
finish_time queued now old = 0
finish_time success now old = now
finish_time failed now old = now
finish_time running now old = old

abbrev pub set_status : JobStatus → String → ℕ → Job → Job
set_status status msg now j = record j {
  status = status;
  error_msg = msg;
  started_at = if is_queued status then 0 else j.started_at;
  finished_at = finish_time status now j.finished_at;
  updated_at = now;
}

unfoldable pub update_status : ℕ → JobStatus → String → ℕ → List Job → List Job
update_status id status msg now table =
    map (λ j. if j.id == id then set_status status msg now j else j) table

-- The row that Enqueue inserts, under the next id.
abbrev pub new_row : ℕ → ℕ → Job → Job
new_row id now job = record job {
  id = id;
  error_msg = "";
  started_at = 0;
  finished_at = 0;
  created_at = now;
  updated_at = now;
}

unfoldable pub insert_job : ℕ → ℕ → Job → List Job → List Job
insert_job id now job table = table ++ new_row id now job ∷ []
