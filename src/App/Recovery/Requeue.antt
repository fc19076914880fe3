-- ===== src/App/Recovery/Requeue.antt =====
-- After the requeue no job is running.
use Prim.Native.String.{String}
use mathlib.Core.Path.{subst}
use fetch_bilibili.Prelude.{
  ℕ, zero, suc, ◌≤◌, ltb, ◌==◌, ◌≡◌, refl, ◌∙◌, sym, ap, arith, Bool, true, not, ◌&&◌, ◌||◌, none,
  some, List, [], ◌∷◌, length, keep, tally, take, any, every, every-perm,
}
use fetch_bilibili.Prelude.Sort.{sort_by, sort_by-perm}
use fetch_bilibili.Prelude.Pages.{length-sort_by}
use fetch_bilibili.Repo.Models.{Job, queued, running}
use fetch_bilibili.World.{ok, World, call}
use fetch_bilibili.Jobs.Table.{is_running, update_status}
use fetch_bilibili.Jobs.Enqueue.{with_status, with_type, list_recent, write_status}
use fetch_bilibili.App.Recovery.{App, requeue_each, requeue_running_jobs}

abbrev pub runs : Job → Bool
runs j = is_running j.status

-- Every running job of the table is one of the list.
abbrev covered : List Job → List Job → Bool
covered table js = every (λ j. not (runs j) || any (λ k. k.id == j.id) js) table

covered-update :
    (msg : String) (now : ℕ) (j : Job) (js table : List Job)
    → covered table (j ∷ js) ≡ true
    → covered (update_status j.id queued msg now table) js ≡ true
unfolding update_status
covered-update msg now j js [] c = refl
covered-update msg now j js (k ∷ table) c = ground (arith, covered-update msg now j js table)

covered-none : (table : List Job) → covered table [] ≡ true → tally runs table ≡ 0
covered-none [] c = refl
covered-none (j ∷ table) c = ground (arith, covered-none table)

abbrev Calm : World → Type 0
Calm w = (n : ℕ) → w.outside.fault n ≡ none

requeue_each-none :
    (js : List Job) (w : World)
    → Calm w
    → covered w.jobs js ≡ true
    → ((requeue_each js w).0 ≡ ok tt) × (tally runs (requeue_each js w).1.jobs ≡ 0)
unfolding requeue_each write_status call
requeue_each-none [] w q c = (refl, covered-none w.jobs c)
requeue_each-none (j ∷ js) w q c = rw (q w.calls) (
    requeue_each-none js
      (record w {
        calls = suc w.calls;
        jobs = update_status j.id queued "启动恢复后重新入队" (w.outside.clock (suc w.calls)) w.jobs;
      })
      q (covered-update "启动恢复后重新入队" (w.outside.clock (suc w.calls)) j js w.jobs c))

take_all : {A : Type 0} (n : ℕ) (xs : List A) → length xs ≤ n → take n xs ≡ xs
take_all zero [] l = refl
take_all zero (x ∷ xs) l = ground (arith, l)
take_all (suc n) [] l = refl
take_all (suc n) (x ∷ xs) l = ap (λ k. x ∷ k) (take_all n xs (omega (arith, l)))

any-every :
    (n : ℕ) (js : List Job) → any (λ k. k.id == n) js ≡ not (every (λ k. not (k.id == n)) js)
any-every n [] = refl
any-every n (j ∷ js) = ground (arith, any-every n js)

any-keep :
    (p : Job → Bool) (j : Job) (js : List Job)
    → p j ≡ true
    → any (λ k. k.id == j.id) (keep p (j ∷ js)) ≡ true
any-keep p j js e = ground (arith, e)

covered-cons :
    (k : Job) (js table : List Job) → covered table js ≡ true → covered table (k ∷ js) ≡ true
covered-cons k js [] c = refl
covered-cons k js (j ∷ table) c = ground (arith, covered-cons k js table)

covered-keep :
    (p : Job → Bool) (table : List Job)
    → ((j : Job) → p j ≡ runs j)
    → covered table (keep p table) ≡ true
covered-keep p [] e = refl
covered-keep p (j ∷ table) e =
    ground (arith, e j, covered-cons j (keep p table) table, covered-keep p table e)

covered-same :
    (js ks table : List Job)
    → ((n : ℕ) → any (λ k. k.id == n) ks ≡ any (λ k. k.id == n) js)
    → covered table js ≡ true
    → covered table ks ≡ true
covered-same js ks [] e c = refl
covered-same js ks (j ∷ table) e c = ground (arith, covered-same js ks table e, e j.id)

tally-length :
    (p : Job → Bool) (js : List Job)
    → ((j : Job) → p j ≡ runs j)
    → length (keep p js) ≡ tally runs js
tally-length p [] e = refl
tally-length p (j ∷ js) e = ground (arith, tally-length p js e, e j)

abbrev newest : Job → Job → Bool
newest a b = ltb b.id a.id

any-sort_by :
    (n : ℕ) (js : List Job) → any (λ k. k.id == n) (sort_by newest js) ≡ any (λ k. k.id == n) js
any-sort_by n js =
    any-every n (sort_by newest js)
    ∙ ap not (every-perm (λ k. not (k.id == n)) (sort_by-perm newest js))
    ∙ sym (any-every n js)

-- The jobs that are listed are the running ones.
abbrev is_listed : Job → Bool
is_listed j = with_status (some running) j && with_type none j

is_listed-runs : (j : Job) → is_listed j ≡ runs j
is_listed-runs j = ground arith

listed-covered :
    (table : List Job)
    → tally runs table ≤ 500
    → covered table (take 500 (sort_by newest (keep is_listed table))) ≡ true
listed-covered table l =
    subst (λ k. covered table k ≡ true)
      (sym (
        take_all 500 (sort_by newest (keep is_listed table)) (
          omega (
            arith,
            l,
            length-sort_by newest (keep is_listed table),
            tally-length is_listed table is_listed-runs,
          ))))
      (covered-same (keep is_listed table) (sort_by newest (keep is_listed table)) table
        (λ n. any-sort_by n (keep is_listed table)) (covered-keep is_listed table is_listed-runs))

-- With no failing call and at most 500 running jobs, the requeue of the running jobs, which is the
-- first part of the recovery, succeeds, and no job is running after it.
pub requeue_leaves_none :
    (a : App) (w : World)
    → a.has_jobs ≡ true
    → Calm w
    → tally runs w.jobs ≤ 500
    → ((requeue_running_jobs a w).0 ≡ ok tt) × (tally runs (requeue_running_jobs a w).1.jobs ≡ 0)
unfolding requeue_running_jobs list_recent call
requeue_leaves_none a w h q l = rw h (
    rw (q w.calls) (
      requeue_each-none (take 500 (sort_by newest (keep is_listed w.jobs)))
        (record w { calls = suc w.calls }) q (listed-covered w.jobs l)))
