-- ===== src/Jobs/Pool/Exclusive.antt =====
-- Two workers never run the same job.
use Prim.Native.String.{String}
use fetch_bilibili.Prelude.{
  every-keep, every-keep_self, ℕ, suc, ◌<◌, ◌==◌, ◌≡◌, ◌≢◌, refl, sym, ◌∙◌, arith, Bool, true,
  false, Option, none, some, List, [], ◌∷◌, map, member, every, every-append, if◌then◌else◌,
  Bool-cases, Option-cases, inl, inr,
}
use fetch_bilibili.Prelude.Int.{pos}
use fetch_bilibili.Repo.Models.{Job}
use fetch_bilibili.Jobs.Table.{
  is_ready, select_ready, ids_of, mark_running, started, fetch_queued, update_status, insert_job,
  new_row,
}
use fetch_bilibili.Jobs.Pool.{
  Pool, Action, insert, claim, finish, give_up, set_worker, take_first, step, run, new_pool,
  outcome,
}
use fetch_bilibili.Jobs.Pool.Rows.{
  runs, is_old, select_ready-every, every-mark_running, every-marked, old-mark_running,
  every-update_status, old-update_status, is_old-suc,
}

-- A job that a worker runs: its rows are running, its id was given out, and no other worker has it.
pub record IsHeld (p : Pool) (k : ℕ) (job : Job) : Type 0 where
  pub row : every (runs job.id) p.table ≡ true
  pub old : job.id < p.next_id
  pub alone : (l : ℕ) (other : Job) → p.workers l ≡ some other → job.id ≡ other.id → k ≡ l

pub record Inv (p : Pool) : Type 0 where
  pub held : (k : ℕ) (job : Job) → p.workers k ≡ some job → IsHeld p k job
  pub given : every (is_old p.next_id) p.table ≡ true

-- A ready row is no row of a job that is being run.
ready_apart : (now id : ℕ) (j : Job) → is_ready now j ≡ true → runs id j ≡ true → id ≢ j.id
ready_apart now id j r e same = ground arith

-- The job of a worker after one is given a job.
given_job :
    (k l at : ℕ) (c job : Job) (o : Option Job)
    → (if l == k then some (started at c) else o) ≡ some job
    → (l == k) ≡ true
    → job.id ≡ c.id
given_job k l at c job o e same = ground arith

pub kept_job :
    (k l : ℕ) (g : Option Job) (job : Job) (o : Option Job)
    → (if l == k then g else o) ≡ some job
    → (l == k) ≡ false
    → o ≡ some job
kept_job k l g job o e other = ground arith

module _ (p : Pool) (k now at : ℕ) (i : Inv p) where
  claim-IsHeld :
      (c : Job) (ids : List ℕ)
      → member c.id ids ≡ true
      → c.id < p.next_id
      → ((l : ℕ) (job : Job) → p.workers l ≡ some job → job.id ≢ c.id)
      → (l : ℕ) (job : Job) → (if l == k then some (started at c) else p.workers l) ≡ some job
      → IsHeld
          (set_worker k
            (some (started at c))
            (record p { table = map (mark_running now ids) p.table }))
          l
          job
  claim-IsHeld c ids m o f l job e = elim (Bool-cases (l == k)) [
    | inl same ↦
        let n = given_job k l at c job (p.workers l) e same in
        record {
          row = rw (n) (every-marked c.id now ids p.table m);
          old = rw (n) o;
          alone = λ l' job' e' q. elim (Bool-cases (l' == k)) [
            | inl same' ↦ ground arith
            | inr other' ↦
                absurd (f l' job' (kept_job k l' _ job' (p.workers l') e' other') (sym q ∙ n))
          ];
        }
    | inr other ↦
        let w = kept_job k l (some (started at c)) job (p.workers l) e other in
        let h = i.held l job w in
        record {
          row = every-mark_running job.id now ids p.table h.row;
          old = h.old;
          alone = λ l' job' e' q. elim (Bool-cases (l' == k)) [
            | inl same' ↦ absurd (f l job w (q ∙ given_job k l' at c job' (p.workers l') e' same'))
            | inr other' ↦
                h.alone l' job' (kept_job k l' (some (started at c)) job' (p.workers l') e' other')
                  q
          ];
        }
  ]

  every-first :
      (q : Job → Bool) (c : Job) (rest : List Job) → every q (c ∷ rest) ≡ true → q c ≡ true
  every-first q c rest e = ground arith

  claim-Inv :
      (sel : List Job)
      → p.workers k ≡ none
      → every (is_ready now) sel ≡ true
      → every (is_old p.next_id) sel ≡ true
      → ((l : ℕ) (job : Job) → p.workers l ≡ some job → every (runs job.id) sel ≡ true)
      → Inv (take_first k (map (started at) sel, map (mark_running now (ids_of sel)) p.table) p)
  claim-Inv [] n r o f = record {
    held = λ l job e. record {
      row = every-mark_running job.id now [] p.table (i.held l job e).row;
      old = (i.held l job e).old;
      alone = (i.held l job e).alone;
    };
    given = old-mark_running p.next_id now [] p.table i.given;
  }
  claim-Inv (c ∷ rest) n r o f = record {
    held = claim-IsHeld c (ids_of (c ∷ rest)) (ground arith) (ground arith) (λ l job e.
        ready_apart now job.id c (every-first (is_ready now) c rest r)
          (every-first (runs job.id) c rest (f l job e)));
    given = old-mark_running p.next_id now (ids_of (c ∷ rest)) p.table i.given;
  }

-- A worker that is done leaves the others' jobs alone.
module _ (p : Pool) (k : ℕ) (i : Inv p) where
  freed :
      (l : ℕ) (job : Job)
      → (if l == k then none else p.workers l) ≡ some job
      → p.workers l ≡ some job
  freed l job e = ground arith

  pub not_freed : (l : ℕ) (job : Job) → (if l == k then none else p.workers l) ≡ some job → l ≢ k
  not_freed l job e same = ground arith

  set_free :
      (table : List Job)
      → every (is_old p.next_id) table ≡ true
      → ((l : ℕ) (job : Job) → p.workers l ≡ some job → l ≢ k → every (runs job.id) table ≡ true)
      → Inv (set_worker k none (record p { table = table }))
  set_free table o r = record {
    held = λ l job e.
        let h = i.held l job (freed l job e) in
        record {
          row = r l job (freed l job e) (not_freed l job e);
          old = h.old;
          alone = λ l' job' e' q. h.alone l' job' (freed l' job' e') q;
        };
    given = o;
  }

give_up-Inv : (p : Pool) (k : ℕ) → Inv p → Inv (set_worker k none p)
give_up-Inv p k i = set_free p k i p.table i.given (λ l job e n. (i.held l job e).row)

finish-Inv :
    (p : Pool) (k now : ℕ) (r : Option String) (job : Job)
    → Inv p
    → p.workers k ≡ some job
    → Inv (
        set_worker k none
          (record p { table = update_status job.id (outcome r).0 (outcome r).1 now p.table }))
finish-Inv p k now r job i e =
    set_free p k i (update_status job.id (outcome r).0 (outcome r).1 now p.table)
      (old-update_status p.next_id job.id (outcome r).0 (outcome r).1 now p.table i.given)
      (λ l other e' n.
        every-update_status other.id job.id (outcome r).0 (outcome r).1 now p.table
          (λ same. n ((i.held l other e').alone k job e same)) (i.held l other e').row)

insert-Inv :
    (p : Pool) (now : ℕ) (job : Job)
    → Inv p
    → Inv (record p { table = insert_job p.next_id now job p.table; next_id = suc p.next_id })
unfolding insert_job
insert-Inv p now job i = record {
  held = λ l other e.
      let h = i.held l other e in
      record {
        row = ground (
          arith,
          h.row,
          h.old,
          every-append (runs other.id) p.table (new_row p.next_id now job ∷ []),
        );
        old = ground (arith, h.old);
        alone = h.alone;
      };
  given = ground (
    arith,
    every-append (is_old (suc p.next_id)) p.table (new_row p.next_id now job ∷ []),
    is_old-suc p.next_id p.table i.given,
  );
}

claim_by-Inv :
    (p : Pool) (k now at : ℕ)
    → Inv p
    → p.workers k ≡ none
    → Inv (take_first k (fetch_queued (pos 1) now at p.table) p)
unfolding fetch_queued
claim_by-Inv p k now at i n =
    claim-Inv p k now at i (select_ready (pos 1) now p.table) n
      (select_ready-every (is_ready now) (pos 1) now p.table
        (every-keep_self (is_ready now) p.table))
      (select_ready-every (is_old p.next_id) (pos 1) now p.table
        (every-keep (is_old p.next_id) (is_ready now) p.table i.given))
      (λ l job e.
        select_ready-every (runs job.id) (pos 1) now p.table
          (every-keep (runs job.id) (is_ready now) p.table (i.held l job e).row))

step-Inv : (a : Action) (p : Pool) → Inv p → Inv (step a p)
unfolding step
step-Inv (insert now job) p i = insert-Inv p now job i
step-Inv (claim k now at) p i = elim (Option-cases (p.workers k)) [
  | inl e ↦ rw (e) (claim_by-Inv p k now at i e)
  | inr (job, e) ↦ rw (e) i
]
step-Inv (finish k now r) p i = elim (Option-cases (p.workers k)) [
  | inl e ↦ rw (e) i
  | inr (job, e) ↦ rw (e) (finish-Inv p k now r job i e)
]
step-Inv (give_up k) p i = give_up-Inv p k i

pub run-Inv_of : (acts : List Action) (p : Pool) → Inv p → Inv (run acts p)
unfolding run
run-Inv_of [] p i = i
run-Inv_of (a ∷ rest) p i = run-Inv_of rest (step a p) (step-Inv a p i)

pub new_pool-Inv : Inv new_pool
unfolding new_pool
new_pool-Inv = record { held = λ k job e. ground arith; given = refl }

-- Over every interleaving of inserts and workers, from an empty table: a job that a worker runs has
-- only running rows in the table, and no other worker runs a job with the same id.
pub run-IsHeld :
    (acts : List Action) (k : ℕ) (job : Job)
    → (run acts new_pool).workers k ≡ some job
    → IsHeld (run acts new_pool) k job
run-IsHeld acts k job e = (run-Inv_of acts new_pool new_pool-Inv).held k job e
