-- ===== src/Creator/Service/Missing.antt =====
-- The active creators that the file does not name, and the pause of one of them.
use mathlib.Core.Path.{subst}
use fetch_bilibili.Prelude.{
  ℕ, suc, ◌≤◌, ltb, ◌==◌, ◌≡◌, refl, ◌∙◌, sym, ap, arith, Bool, true, false, not, ◌&&◌, List, [],
  ◌∷◌, keep, tally, take, any, change, member, every, every-take, every-perm, Bool-cases, inl, inr,
  if◌then◌else◌,
}
use fetch_bilibili.Prelude.Int.{pos}
use fetch_bilibili.Prelude.Pages.{tally-sort_by, tally-keep_le, tally-take_le}
use fetch_bilibili.Prelude.Sort.{sort_by, sort_by-perm}
use fetch_bilibili.Repo.Models.{Creator}
use fetch_bilibili.Repo.Creators.{by_id, is_active, page_after, with_status}

abbrev pub is_missing : List ℕ → Creator → Bool
is_missing active c = is_active c && not (member c.id active)

abbrev pub with_id : ℕ → Creator → Bool
with_id n c = c.id == n

-- No two rows share their id.
abbrev pub OneEach : List Creator → Type 0
OneEach cs = (n : ℕ) → tally (with_id n) cs ≤ 1

-- The row with the creator's id is there and active.
abbrev pub live : List Creator → Creator → Bool
live cs k = any (λ r. r.id == k.id && is_active r) cs

abbrev pub paused : ℕ → ℕ → List Creator → List Creator
paused n now cs = change (with_id n) (with_status "paused" now) cs

abbrev pub other_ids : ℕ → List Creator → Bool
other_ids n cs = every (λ k. not (k.id == n)) cs

abbrev pub distinct_ids : List Creator → Bool
distinct_ids [] = true
distinct_ids (c ∷ cs) = other_ids c.id cs && distinct_ids cs

paused_none :
    (active : List ℕ) (n now : ℕ) (cs : List Creator)
    → tally (with_id n) cs ≡ 0
    → tally (is_missing active) (paused n now cs) ≡ tally (is_missing active) cs
paused_none active n now [] e = refl
paused_none active n now (c ∷ cs) e = ground (arith, e, paused_none active n now cs)

live_none : (k : Creator) (cs : List Creator) → tally (with_id k.id) cs ≡ 0 → live cs k ≡ false
live_none k [] e = refl
live_none k (c ∷ cs) e = ground (arith, e, live_none k cs)

-- The pause takes one creator from the missing ones.
pub paused_one :
    (active : List ℕ) (k : Creator) (now : ℕ) (cs : List Creator)
    → tally (with_id k.id) cs ≤ 1
    → live cs k ≡ true
    → member k.id active ≡ false
    → suc (tally (is_missing active) (paused k.id now cs)) ≡ tally (is_missing active) cs
paused_one active k now [] l e m = absurd (ground (arith, e))
paused_one active k now (c ∷ cs) l e m = elim (Bool-cases (c.id == k.id)) [
  | inl q ↦
      let i : c.id ≡ k.id = ground (arith, q) in
      let t : tally (with_id k.id) cs ≡ 0 = ground (arith, l, q) in
      let a : is_active c ≡ true = ground (arith, e, q, live_none k cs t) in
      let f : member c.id active ≡ false = subst (λ n. member n active ≡ false) (sym i) m in
      rw q (rw a (rw f (ap suc (paused_none active k.id now cs t))))
  | inr q ↦
      let h = paused_one active k now cs (ground (arith, l, q)) (ground (arith, e, q)) m in
      rw q (same (is_missing active c) h)
]
  where
    same :
        {a b : ℕ} (p : Bool) → suc a ≡ b → suc (if p then suc a else a) ≡ (if p then suc b else b)
    same p h = ground (arith, h)

-- It leaves the rows with other ids.
pub live-paused :
    (n now : ℕ) (k : Creator) (cs : List Creator)
    → (k.id == n) ≡ false
    → live (paused n now cs) k ≡ live cs k
live-paused n now k [] e = refl
live-paused n now k (c ∷ cs) e = ground (arith, e, live-paused n now k cs)

pub lives-paused :
    (n now : ℕ) (cs page : List Creator)
    → other_ids n page ≡ true
    → every (live cs) page ≡ true
    → every (live (paused n now cs)) page ≡ true
lives-paused n now cs [] o e = refl
lives-paused n now cs (k ∷ page) o e =
    ground (arith, o, e, live-paused n now k cs, lives-paused n now cs page)

lives-cons :
    (c : Creator) (cs page : List Creator)
    → every (live cs) page ≡ true
    → every (live (c ∷ cs)) page ≡ true
lives-cons c cs [] e = refl
lives-cons c cs (k ∷ page) e = ground (arith, e, lives-cons c cs page)

lives-keep :
    (last : ℕ) (cs : List Creator)
    → every (live cs) (keep (λ c. is_active c && ltb last c.id) cs) ≡ true
lives-keep last [] = refl
lives-keep last (c ∷ cs) =
    ground
      (arith, lives-keep last cs, lives-cons c cs (keep (λ c. is_active c && ltb last c.id) cs))

pub lives-page :
    (last : ℕ) (cs : List Creator) → every (live cs) (page_after is_active last (pos 200) cs) ≡ true
unfolding page_after
lives-page last cs =
    every-take (live cs) 200 (sort_by by_id (keep (λ c. is_active c && ltb last c.id) cs)) (
      every-perm (live cs) (sort_by-perm by_id (keep (λ c. is_active c && ltb last c.id) cs))
      ∙ lives-keep last cs)

others-none : (n : ℕ) (cs : List Creator) → tally (with_id n) cs ≡ 0 → other_ids n cs ≡ true
others-none n [] e = refl
others-none n (c ∷ cs) e = ground (arith, e, others-none n cs)

distinct-OneEach : (cs : List Creator) → OneEach cs → distinct_ids cs ≡ true
distinct-OneEach [] o = refl
distinct-OneEach (c ∷ cs) o =
    let here : tally (with_id c.id) (c ∷ cs) ≤ 1 = o c.id in
    let rest =
      distinct-OneEach cs
        (λ n. let k : tally (with_id n) (c ∷ cs) ≤ 1 = o n in ground (arith, k)) in
    ground (arith, here, rest, others-none c.id cs)

pub distinct-page :
    (last : ℕ) (cs : List Creator)
    → OneEach cs
    → distinct_ids (page_after is_active last (pos 200) cs) ≡ true
unfolding page_after
distinct-page last cs o =
    let kept = keep (λ c. is_active c && ltb last c.id) cs in
    distinct-OneEach (take 200 (sort_by by_id kept)) (λ n. omega (
      arith,
      o n,
      tally-take_le (with_id n) 200 (sort_by by_id kept),
      tally-sort_by (with_id n) by_id kept,
      tally-keep_le (with_id n) (λ c. is_active c && ltb last c.id) cs,
    ))
