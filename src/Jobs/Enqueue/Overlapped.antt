-- ===== src/Jobs/Enqueue/Overlapped.antt =====
-- Two requests whose statements are not kept apart, which no transaction or key forbids.
use fetch_bilibili.Prelude.{
  ℕ, suc, ◌≡◌, refl, ◌∙◌, ap, arith, Bool, true, false, ◌&&◌, none, List, [], ◌∷◌, tally,
  tally-append, any,
}
use fetch_bilibili.Repo.Models.{Job, JobType}
use fetch_bilibili.World.{ok, World, M, ◌>>=◌, call}
use fetch_bilibili.Jobs.Table.{new_row, insert_job}
use fetch_bilibili.Jobs.Enqueue.{
  accepts_type, same_type, is_active, same_target, has_active_job, check_active, insert_unless,
}

-- Both requests check before either inserts.
unfoldable pub enqueue_overlapped : Job → M ℕ
unfolding call has_active_job
enqueue_overlapped job = do
  first ← check_active job
  second ← check_active job
  id ← insert_unless first job
  insert_unless second job

abbrev Calm : World → Type 0
Calm w = (n : ℕ) → w.outside.fault n ≡ none

abbrev alike : Job → Job → Bool
alike job j = same_type j.type job.type && is_active j.status

same_type_self : (t : JobType) → accepts_type t ≡ true → same_type t t ≡ true
same_type_self t e = ground arith

tally-insert_job :
    (job : Job) (id now : ℕ) (table : List Job)
    → is_active job.status ≡ true
    → accepts_type job.type ≡ true
    → tally (alike job) (insert_job id now job table) ≡ suc (tally (alike job) table)
unfolding insert_job
tally-insert_job job id now table a t =
    ground (
      arith,
      a,
      same_type_self job.type t,
      tally-append (alike job) table (new_row id now job ∷ []),
    )

-- No active job stands in the way.
abbrev IsFree : Job → World → Type 0
IsFree job w =
    any
      (λ j.
        same_type j.type job.type
        && is_active j.status
        && same_target w.outside job.type job.payload j)
      w.jobs
    ≡ false

check_active-IsFree :
    (job : Job) (w : World)
    → Calm w
    → is_active job.status ≡ true
    → IsFree job w
    → check_active job w ≡ (ok false, record w { calls = suc w.calls })
unfolding has_active_job call
check_active-IsFree job w q a f = rw a (rw (q w.calls) (rw f refl))

abbrev with_job : Job → World → World
with_job job w = record w {
  calls = suc (suc w.calls);
  jobs = insert_job w.next_job_id (w.outside.clock (suc w.calls)) job w.jobs;
  next_job_id = suc w.next_job_id;
}

insert_unless-Calm :
    (job : Job) (w : World)
    → Calm w
    → accepts_type job.type ≡ true
    → insert_unless false job w ≡ (ok w.next_job_id, with_job job w)
unfolding call
insert_unless-Calm job w q t = rw (q w.calls) (rw t (rw (q (suc w.calls)) refl))

-- If both requests for a job check before either inserts, and nothing fails, then there are two more
-- active jobs of its type, although one was to be refused.
overlapped_doubles :
    (job : Job) (w : World)
    → Calm w
    → is_active job.status ≡ true
    → accepts_type job.type ≡ true
    → any
        (λ j.
          same_type j.type job.type
          && is_active j.status
          && same_target w.outside job.type job.payload j)
        w.jobs
      ≡ false
    → tally (alike job) (enqueue_overlapped job w).1.jobs ≡ suc (suc (tally (alike job) w.jobs))
unfolding enqueue_overlapped
overlapped_doubles job w q a t f =
    let v : World = record w { calls = suc (suc w.calls) } in
    rw (check_active-IsFree job w q a f) (
      rw (check_active-IsFree job (record w { calls = suc w.calls }) q a f) (
        rw (insert_unless-Calm job v q t) (
          rw (insert_unless-Calm job (with_job job v) q t) (
            tally-insert_job job (suc w.next_job_id) _ (with_job job v).jobs a t
            ∙ ap suc (tally-insert_job job w.next_job_id _ w.jobs a t)))))
