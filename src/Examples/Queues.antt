-- ===== src/Examples/Queues.antt =====
-- The library's rebuild queue, the event broker and the worker pool on short schedules.
use fetch_bilibili.Prelude.{ℕ, none, ◌≡◌, refl, arith, false, some, List, [], ◌∷◌, ◌⊎◌}
use fetch_bilibili.Prelude.Int.{pos}
use fetch_bilibili.Library.Syncer.{
  Action, request, send, receive, begin, finish, resend, new_syncer, run, step, enqueue_creator,
  enqueue_locked, begin_locked, finish_locked,
}
use fetch_bilibili.Library.Syncer.Invariant.{Inv, run-Inv}
use fetch_bilibili.Library.Syncer.Progress.{stale_after, no_request_lost}
use fetch_bilibili.Library.Syncer.Deadlock.{
  IsStuck, CanMove, jam, jam-IsStuck, pending_moves, stuck_forever,
}
use fetch_bilibili.Live.Broker.{
  Broker, Op, subscribe, publish, remove, receive as receive_op, new_broker, run as run_broker,
}
use fetch_bilibili.Live.Broker.Safety.{Inv as BrokerInv, broker_never_panics}
use fetch_bilibili.Live.Broker.Delivery.{Delivered, log_run, new_log, events_in_order}
use fetch_bilibili.Prelude.Sort.{sort_by, insert_by}
use fetch_bilibili.Repo.Models.{Job, JobType, JobStatus}
use fetch_bilibili.Jobs.Table.{select_ready, fetch_queued, insert_job}
use fetch_bilibili.Jobs.Pool.Once.{IsOver, run-IsOver}
use fetch_bilibili.Jobs.Pool.{
  Action as PoolAction, insert, claim, finish as finish_job, run as run_pool, step as step_pool,
  new_pool,
}
use fetch_bilibili.Jobs.Pool.Exclusive.{IsHeld, run-IsHeld}

-- A request for creator 7, and one more while it is rebuilt.
abbrev twice : List Action
twice =
    request (pos 7)
    ∷ send
    ∷ receive
    ∷ begin
    ∷ request (pos 7)
    ∷ finish
    ∷ resend
    ∷ receive
    ∷ begin
    ∷ finish
    ∷ []

run-Inv_example : Inv (run twice (new_syncer 2))
run-Inv_example = run-Inv 2 twice

no_request_lost_example : stale_after twice (new_syncer 2) (λ _. false) 7 ≡ false
unfolding run step enqueue_creator enqueue_locked begin_locked finish_locked new_syncer
no_request_lost_example =
    no_request_lost 2 twice 7 (record { no_queue = refl; no_send = refl; no_work = refl })

jam-IsStuck_example : IsStuck (run (jam 2) (new_syncer 2))
jam-IsStuck_example = jam-IsStuck 2 (omega arith)

abbrev sent : List Action
sent = request (pos 7) ∷ send ∷ []

pending_moves_example : IsStuck (run sent (new_syncer 2)) ⊎ CanMove (run sent (new_syncer 2))
unfolding run step enqueue_creator enqueue_locked begin_locked finish_locked new_syncer
pending_moves_example = pending_moves 2 sent 7 (omega arith) refl

stuck_forever_example :
    ((run twice (run (jam 2) (new_syncer 2))).queue ≡ (run (jam 2) (new_syncer 2)).queue)
    × ((run twice (run (jam 2) (new_syncer 2))).consumer ≡ (run (jam 2) (new_syncer 2)).consumer)
stuck_forever_example =
    stuck_forever twice (run (jam 2) (new_syncer 2)) (jam-IsStuck 2 (omega arith))

-- Two subscribers, the first of which is slow and then leaves.
abbrev visits : List (Op ℕ)
visits =
    subscribe 1 ∷ subscribe 2 ∷ publish 10 ∷ publish 11 ∷ receive_op 1 ∷ publish 12 ∷ remove 0 ∷ []

broker_never_panics_example : (b : Broker ℕ) × (run_broker visits new_broker ≡ some b) × BrokerInv b
broker_never_panics_example = broker_never_panics visits

abbrev after_visits : Broker ℕ
after_visits = (broker_never_panics visits).0

events_in_order_example : Delivered after_visits (log_run visits new_broker new_log) 1
events_in_order_example = events_in_order visits after_visits 1 (broker_never_panics visits).1

abbrev download_job : Job
download_job = record {
  id = 0;
  type = JobType.download;
  status = JobStatus.queued;
  payload = [];
  error_msg = "";
  not_before = 0;
  started_at = 0;
  finished_at = 0;
  created_at = 0;
  updated_at = 0;
}

-- Two workers look for work, and there is one job.
abbrev shifts : List PoolAction
shifts = insert 5 download_job ∷ claim 0 6 6 ∷ claim 1 6 6 ∷ []

abbrev taken_job : Job
taken_job = record download_job {
  id = 1;
  status = JobStatus.running;
  started_at = 6;
  created_at = 5;
  updated_at = 5;
}

run-IsHeld_example : IsHeld (run_pool shifts new_pool) 0 taken_job
unfolding run_pool step_pool new_pool insert_job fetch_queued select_ready sort_by insert_by
run-IsHeld_example = run-IsHeld shifts 0 taken_job refl

run-IsOver_example :
    IsOver
      (run_pool (claim 1 8 8 ∷ []) (step_pool (finish_job 0 7 none) (run_pool shifts new_pool)))
      1
unfolding run_pool step_pool new_pool insert_job fetch_queued select_ready sort_by insert_by
run-IsOver_example = run-IsOver shifts 0 7 none taken_job (claim 1 8 8 ∷ []) refl
