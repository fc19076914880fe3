-- ===== src/Jobs/Pool.antt =====
-- internal/worker/worker.go: the pool's workers, which run consumeOnce beside each other over one
-- jobs table, and Enqueue's inserts by other parts of the program. The handler is the interface
-- `Handler`, of which only the outcome counts. The events about jobs are not modelled.
use Prim.Native.String.{String}
use fetch_bilibili.Prelude.{
  ℕ, suc, ◌==◌, Bool, true, false, Option, none, some, List, [], ◌∷◌, if◌then◌else◌,
}
use fetch_bilibili.Prelude.Int.{pos}
use fetch_bilibili.Repo.Models.{Job, JobStatus, success, failed}
use fetch_bilibili.Jobs.Table.{fetch_queued, update_status, insert_job}
mod Rows
pub mod Exclusive
pub mod Once

-- The table, its next id, and the job that each worker runs.
pub record Pool : Type 0 where
  pub table : List Job
  pub next_id : ℕ
  pub workers : ℕ → Option Job

pub data Action : Type 0 where
  -- Another part of the program inserts a job.
  insert : (now : ℕ) → Job → Action
  -- A worker fetches a job, at this time of the database and of the program.
  claim : (worker now at : ℕ) → Action
  -- The worker's handler ends, with no error or with this text.
  finish : (worker now : ℕ) → Option String → Action
  -- The handler ends, and the status cannot be written.
  give_up : (worker : ℕ) → Action

abbrev pub set_worker : ℕ → Option Job → Pool → Pool
set_worker k job p = record p { workers = λ j. if j == k then job else p.workers j }

-- FetchQueued with the limit 1: the first of what it returns is run.
abbrev pub take_first : ℕ → List Job × List Job → Pool → Pool
take_first k ([], table) p = record p { table = table }
take_first k (job ∷ rest, table) p = set_worker k (some job) (record p { table = table })

abbrev pub claim_by : Option Job → ℕ → ℕ → ℕ → Pool → Pool
claim_by none k now at p = take_first k (fetch_queued (pos 1) now at p.table) p
claim_by (some job) k now at p = p

-- The status and the text that consumeOnce writes.
abbrev pub outcome : Option String → JobStatus × String
outcome none = (success, "")
outcome (some msg) = (failed, msg)

abbrev pub finish_by : Option Job → ℕ → ℕ → Option String → Pool → Pool
finish_by none k now r p = p
finish_by (some job) k now r p =
    set_worker k none
      (record p { table = update_status job.id (outcome r).0 (outcome r).1 now p.table })

-- A worker that is busy fetches no job, and one that is not has none to end.
unfoldable pub step : Action → Pool → Pool
step (insert now job) p = record p {
  table = insert_job p.next_id now job p.table;
  next_id = suc p.next_id;
}
step (claim k now at) p = claim_by (p.workers k) k now at p
step (finish k now r) p = finish_by (p.workers k) k now r p
step (give_up k) p = set_worker k none p

unfoldable pub run : List Action → Pool → Pool
run [] p = p
run (a ∷ rest) p = run rest (step a p)

-- No rows, and no worker is busy.
unfoldable pub new_pool : Pool
new_pool = record { table = []; next_id = 1; workers = λ _. none }
