-- ===== src/Jobs/Pool/Once.antt =====
-- A job that has ended is never run again.
use Prim.Native.String.{String}
use fetch_bilibili.Prelude.{
  every-keep, every-keep_self, ℕ, suc, ◌<◌, ◌==◌, ◌≡◌, ◌≢◌, refl, arith, Bool, true, false, not,
  ◌||◌, Option, none, some, List, [], ◌∷◌, map, member, every, every-append, if◌then◌else◌,
  Bool-cases, Option-cases, inl, inr,
}
use fetch_bilibili.Prelude.Int.{pos}
use fetch_bilibili.Repo.Models.{Job, JobStatus, success, failed}
use fetch_bilibili.Jobs.Table.{
  is_ready, select_ready, ids_of, mark_running, started, fetch_queued, update_status, insert_job,
  new_row,
}
use fetch_bilibili.Jobs.Pool.{
  Pool, Action, insert, claim, finish, give_up, take_first, step, run, new_pool, outcome,
}
use fetch_bilibili.Jobs.Pool.Rows.{select_ready-every, member-same}
use fetch_bilibili.Jobs.Pool.Exclusive.{Inv, run-Inv_of, new_pool-Inv, kept_job, not_freed}

abbrev pub is_done : JobStatus → Bool
is_done success = true
is_done failed = true
is_done _ = false

-- Every row with this id has ended.
abbrev pub ends : ℕ → Job → Bool
ends id j = not (j.id == id) || is_done j.status

-- The rows of the job have ended, its id was given out, and no worker runs it.
pub record IsOver (p : Pool) (id : ℕ) : Type 0 where
  pub done : every (ends id) p.table ≡ true
  pub old : id < p.next_id
  pub free : (l : ℕ) (job : Job) → p.workers l ≡ some job → job.id ≢ id

ready_others :
    (now id : ℕ) (js : List Job)
    → every (is_ready now) js ≡ true
    → every (ends id) js ≡ true
    → member id (ids_of js) ≡ false
ready_others now id [] r e = refl
ready_others now id (j ∷ rest) r e = ground (arith, ready_others now id rest)

every-mark_others :
    (id now : ℕ) (ids : List ℕ) (js : List Job)
    → member id ids ≡ false
    → every (ends id) js ≡ true
    → every (ends id) (map (mark_running now ids) js) ≡ true
every-mark_others id now ids [] m e = refl
every-mark_others id now ids (j ∷ rest) m e =
    ground (arith, every-mark_others id now ids rest m, member-same id j.id ids)

every-update_other :
    (id other : ℕ) (s : JobStatus) (msg : String) (now : ℕ) (js : List Job)
    → other ≢ id
    → every (ends id) js ≡ true
    → every (ends id) (update_status other s msg now js) ≡ true
unfolding update_status
every-update_other id other s msg now [] n e = refl
every-update_other id other s msg now (j ∷ rest) n e =
    ground (arith, every-update_other id other s msg now rest n)

every-updated :
    (id : ℕ) (s : JobStatus) (msg : String) (now : ℕ) (js : List Job)
    → is_done s ≡ true
    → every (ends id) (update_status id s msg now js) ≡ true
unfolding update_status
every-updated id s msg now [] d = refl
every-updated id s msg now (j ∷ rest) d = ground (arith, every-updated id s msg now rest d)

given_other :
    (k l at id : ℕ) (c job : Job) (o : Option Job)
    → (if l == k then some (started at c) else o) ≡ some job
    → c.id ≢ id
    → ((j : Job) → o ≡ some j → j.id ≢ id)
    → job.id ≢ id
given_other k l at id c job o e n f = elim (Bool-cases (l == k)) [
  | inl same ↦ ground arith
  | inr other ↦ f job (kept_job k l (some (started at c)) job o e other)
]

freed_job :
    (k l : ℕ) (job : Job) (o : Option Job) → (if l == k then none else o) ≡ some job → o ≡ some job
freed_job k l job o e = ground arith

take_first-IsOver :
    (p : Pool) (k now at id : ℕ) (sel : List Job)
    → IsOver p id
    → member id (ids_of sel) ≡ false
    → IsOver (take_first k (map (started at) sel, map (mark_running now (ids_of sel)) p.table) p) id
take_first-IsOver p k now at id [] o m = record {
  done = every-mark_others id now [] p.table refl o.done;
  old = o.old;
  free = o.free;
}
take_first-IsOver p k now at id (c ∷ rest) o m = record {
  done = every-mark_others id now (ids_of (c ∷ rest)) p.table m o.done;
  old = o.old;
  free = λ l job e. given_other k l at id c job (p.workers l) e (ground arith) (o.free l);
}

claim-IsOver :
    (p : Pool) (k now at id : ℕ)
    → IsOver p id
    → IsOver (take_first k (fetch_queued (pos 1) now at p.table) p) id
unfolding fetch_queued
claim-IsOver p k now at id o =
    take_first-IsOver p k now at id (select_ready (pos 1) now p.table) o (
      ready_others now id (select_ready (pos 1) now p.table)
        (select_ready-every (is_ready now) (pos 1) now p.table
          (every-keep_self (is_ready now) p.table))
        (select_ready-every (ends id) (pos 1) now p.table
          (every-keep (ends id) (is_ready now) p.table o.done)))

insert-IsOver :
    (p : Pool) (now id : ℕ) (job : Job)
    → IsOver p id
    → IsOver (record p { table = insert_job p.next_id now job p.table; next_id = suc p.next_id }) id
unfolding insert_job
insert-IsOver p now id job o = record {
  done =
      ground
        (arith, o.done, o.old, every-append (ends id) p.table (new_row p.next_id now job ∷ []));
  old = ground (arith, o.old);
  free = o.free;
}

step-IsOver : (a : Action) (p : Pool) (id : ℕ) → IsOver p id → IsOver (step a p) id
unfolding step
step-IsOver (insert now job) p id o = insert-IsOver p now id job o
step-IsOver (claim k now at) p id o = elim (Option-cases (p.workers k)) [
  | inl e ↦ rw (e) (claim-IsOver p k now at id o)
  | inr (job, e) ↦ rw (e) o
]
step-IsOver (finish k now r) p id o = elim (Option-cases (p.workers k)) [
  | inl e ↦ rw (e) o
  | inr (job, e) ↦ rw (e) (record {
    done =
        every-update_other id job.id (outcome r).0 (outcome r).1 now p.table (o.free k job e)
          o.done;
    old = o.old;
    free = λ l other e'. o.free l other (freed_job k l other (p.workers l) e');
  })
]
step-IsOver (give_up k) p id o = record {
  done = o.done;
  old = o.old;
  free = λ l other e'. o.free l other (freed_job k l other (p.workers l) e');
}

run-IsOver_from : (acts : List Action) (p : Pool) (id : ℕ) → IsOver p id → IsOver (run acts p) id
unfolding run
run-IsOver_from [] p id o = o
run-IsOver_from (a ∷ rest) p id o = run-IsOver_from rest (step a p) id (step-IsOver a p id o)

finished-IsOver :
    (p : Pool) (k now : ℕ) (r : Option String) (job : Job)
    → Inv p
    → p.workers k ≡ some job
    → IsOver (step (finish k now r) p) job.id
unfolding step
finished-IsOver p k now r job i e = rw (e) (record {
  done = every-updated job.id (outcome r).0 (outcome r).1 now p.table (ground arith);
  old = (i.held k job e).old;
  free = λ l other e' same.
      not_freed p k i l other e'
        ((i.held l other (freed_job k l other (p.workers l) e')).alone k job e same);
})

-- Over every interleaving: once a worker has ended a job and written its status, the rows with its
-- id have ended and stay so, and no worker runs a job with that id again.
pub run-IsOver :
    (before : List Action) (k now : ℕ) (r : Option String) (job : Job) (later : List Action)
    → (run before new_pool).workers k ≡ some job
    → IsOver (run later (step (finish k now r) (run before new_pool))) job.id
run-IsOver before k now r job later e =
    run-IsOver_from later (step (finish k now r) (run before new_pool)) job.id (
      finished-IsOver (run before new_pool) k now r job (run-Inv_of before new_pool new_pool-Inv) e)
