-- ===== src/Jobs/Pool/Rows.antt =====
-- What the statements on the jobs table leave true of its rows.
use Prim.Native.String.{String}
use fetch_bilibili.Prelude.{
  ℕ, suc, ltb, ◌==◌, ◌≡◌, ◌≢◌, refl, ◌∙◌, arith, Bool, true, not, ◌||◌, List, [], ◌∷◌, map, keep,
  member, every, every-take, every-perm,
}
use fetch_bilibili.Prelude.Int.{ℤ}
use fetch_bilibili.Prelude.Sort.{sort_by, sort_by-perm}
use fetch_bilibili.Repo.Models.{Job, JobStatus}
use fetch_bilibili.Repo.Videos.{limit_or}
use fetch_bilibili.Jobs.Table.{
  is_running, is_ready, by_id, select_ready, mark_running, update_status,
}

-- Every row with this id is running.
abbrev pub runs : ℕ → Job → Bool
runs id j = not (j.id == id) || is_running j.status

-- Every id was given out.
abbrev pub is_old : ℕ → Job → Bool
is_old next j = ltb j.id next

-- What holds of the rows holds of the selected ones, which are ready besides.
pub select_ready-every :
    (p : Job → Bool) (limit : ℤ) (now : ℕ) (table : List Job)
    → every p (keep (is_ready now) table) ≡ true
    → every p (select_ready limit now table) ≡ true
unfolding select_ready
select_ready-every p limit now table e =
    every-take p (limit_or 10 limit) (sort_by by_id (keep (is_ready now) table))
      (every-perm p (sort_by-perm by_id (keep (is_ready now) table)) ∙ e)

-- Marking rows as running keeps running rows so.
pub every-mark_running :
    (id now : ℕ) (ids : List ℕ) (js : List Job)
    → every (runs id) js ≡ true
    → every (runs id) (map (mark_running now ids) js) ≡ true
every-mark_running id now ids [] e = refl
every-mark_running id now ids (j ∷ rest) e = ground (arith, every-mark_running id now ids rest)

pub member-same :
    (a b : ℕ) (ids : List ℕ) → (a == b) ≡ true → member b ids ≡ true → member a ids ≡ true
member-same a b [] e m = m
member-same a b (x ∷ rest) e m = ground (arith, member-same a b rest e)

-- And the marked ones are running.
pub every-marked :
    (id now : ℕ) (ids : List ℕ) (js : List Job)
    → member id ids ≡ true
    → every (runs id) (map (mark_running now ids) js) ≡ true
every-marked id now ids [] e = refl
every-marked id now ids (j ∷ rest) e =
    ground (arith, every-marked id now ids rest e, member-same j.id id ids)

pub old-mark_running :
    (next now : ℕ) (ids : List ℕ) (js : List Job)
    → every (is_old next) js ≡ true
    → every (is_old next) (map (mark_running now ids) js) ≡ true
old-mark_running next now ids [] e = refl
old-mark_running next now ids (j ∷ rest) e = ground (arith, old-mark_running next now ids rest)

pub every-update_status :
    (id other : ℕ) (s : JobStatus) (msg : String) (now : ℕ) (js : List Job)
    → id ≢ other
    → every (runs id) js ≡ true
    → every (runs id) (update_status other s msg now js) ≡ true
unfolding update_status
every-update_status id other s msg now [] n e = refl
every-update_status id other s msg now (j ∷ rest) n e =
    ground (arith, every-update_status id other s msg now rest n)

pub old-update_status :
    (next other : ℕ) (s : JobStatus) (msg : String) (now : ℕ) (js : List Job)
    → every (is_old next) js ≡ true
    → every (is_old next) (update_status other s msg now js) ≡ true
unfolding update_status
old-update_status next other s msg now [] e = refl
old-update_status next other s msg now (j ∷ rest) e =
    ground (arith, old-update_status next other s msg now rest)

pub is_old-suc :
    (next : ℕ) (js : List Job) → every (is_old next) js ≡ true → every (is_old (suc next)) js ≡ true
is_old-suc next [] e = refl
is_old-suc next (j ∷ rest) e = ground (arith, is_old-suc next rest)
