-- ===== src/Repo/Creators/Keys.antt =====
-- The unique keys of the creators, and what a write leaves in the table.
use package.text.Mathlib.TextEquality.{eq_iff}
use fetch_bilibili.Prelude.{
  ℕ, suc, ltb, ◌==◌, ◌≡◌, refl, arith, Bool, true, false, not, ◌&&◌, ◌||◌, none, List, [], ◌∷◌,
  ◌++◌, keep, first, any, change, every,
}
use fetch_bilibili.Repo.Models.{Creator}
use fetch_bilibili.World.{World}
use fetch_bilibili.Repo.Creators.{has_key}

abbrev pub has_id : ℕ → Creator → Bool
has_id id c = c.id == id

-- No two rows share their id or their platform and uid.
abbrev pub keyed : List Creator → Bool
keyed [] = true
keyed (c ∷ rest) =
    not (any (has_key c.platform c.uid) rest) && not (any (has_id c.id) rest) && keyed rest

abbrev pub is_old : ℕ → Creator → Bool
is_old next c = ltb c.id next

pub record IsKeyed (w : World) : Type 0 where
  pub keys : keyed w.creators ≡ true
  pub old : every (is_old w.next_creator_id) w.creators ≡ true

pub any-change :
    (q p : Creator → Bool) (f : Creator → Creator) (cs : List Creator)
    → ((c : Creator) → q (f c) ≡ q c)
    → any q (change p f cs) ≡ any q cs
any-change q p f [] h = refl
any-change q p f (c ∷ rest) h = ground (arith, any-change q p f rest h, h c)

-- A change that keeps the keys.
pub record IsQuiet (f : Creator → Creator) : Type 0 where
  pub same_id : (c : Creator) → (f c).id ≡ c.id
  pub same_platform : (c : Creator) → (f c).platform ≡ c.platform
  pub same_uid : (c : Creator) → (f c).uid ≡ c.uid

pub keyed-change :
    (p : Creator → Bool) (f : Creator → Creator) (cs : List Creator)
    → IsQuiet f
    → keyed (change p f cs) ≡ keyed cs
keyed-change p f [] q = refl
keyed-change p f (c ∷ rest) q = ground (
  arith,
  keyed-change p f rest q,
  q.same_id c,
  q.same_platform c,
  q.same_uid c,
  any-change (has_key c.platform c.uid) p f rest
      (λ d. ground (arith, q.same_platform d, q.same_uid d)),
  any-change (has_id c.id) p f rest (λ d. ground (arith, q.same_id d)),
)

pub old-change :
    (next : ℕ) (p : Creator → Bool) (f : Creator → Creator) (cs : List Creator)
    → IsQuiet f
    → every (is_old next) cs ≡ true
    → every (is_old next) (change p f cs) ≡ true
old-change next p f [] q e = refl
old-change next p f (c ∷ rest) q e = ground (arith, old-change next p f rest q, q.same_id c)

pub any-append :
    (q : Creator → Bool) (cs : List Creator) (d : Creator)
    → any q (cs ++ d ∷ []) ≡ (any q cs || q d)
any-append q [] d = ground arith
any-append q (c ∷ rest) d = ground (arith, any-append q rest d)

pub keyed-append :
    (next : ℕ) (cs : List Creator) (d : Creator)
    → keyed cs ≡ true
    → every (is_old next) cs ≡ true
    → any (has_key d.platform d.uid) cs ≡ false
    → d.id ≡ next
    → keyed (cs ++ d ∷ []) ≡ true
keyed-append next [] d k o n e = refl
keyed-append next (c ∷ rest) d k o n e = ground (
  arith,
  keyed-append next rest d,
  any-append (has_key c.platform c.uid) rest d,
  any-append (has_id c.id) rest d,
  eq_iff c.platform d.platform,
  eq_iff d.platform c.platform,
  eq_iff c.uid d.uid,
  eq_iff d.uid c.uid,
)

pub old-suc :
    (next : ℕ) (cs : List Creator)
    → every (is_old next) cs ≡ true
    → every (is_old (suc next)) cs ≡ true
old-suc next [] e = refl
old-suc next (c ∷ rest) e = ground (arith, old-suc next rest)

pub any-keep :
    (q p : Creator → Bool) (cs : List Creator) → any q cs ≡ false → any q (keep p cs) ≡ false
any-keep q p [] e = refl
any-keep q p (c ∷ rest) e = ground (arith, any-keep q p rest)

pub keyed-keep :
    (p : Creator → Bool) (cs : List Creator) → keyed cs ≡ true → keyed (keep p cs) ≡ true
keyed-keep p [] e = refl
keyed-keep p (c ∷ rest) e = ground (
  arith,
  keyed-keep p rest,
  any-keep (has_key c.platform c.uid) p rest,
  any-keep (has_id c.id) p rest,
)

pub any-first : (q : Creator → Bool) (cs : List Creator) → first q cs ≡ none → any q cs ≡ false
any-first q [] e = refl
any-first q (c ∷ rest) e = ground (arith, any-first q rest)
