-- ===== src/Creator/Service/Removed.antt =====
-- A removed creator is not brought back by the file.
use Prim.Native.String.{String}
use package.text.Mathlib.TextEquality.{eq_iff}
use fetch_bilibili.Prelude.{
  ℕ, suc, ◌<◌, ◌==◌, ◌≡◌, ◌≢◌, refl, arith, Bool, true, false, not, ◌||◌, Option, none, some, List,
  [], ◌∷◌, first, any, change, every, every-append, ◌⊎◌, inl, inr, Bool-cases,
}
use fetch_bilibili.Repo.Models.{Creator}
use fetch_bilibili.World.{Error, no_rows, Result, ok, err, World, return, answer, call, attempt}
use fetch_bilibili.Triples.{Ends, Triple, Triple-bind, Triple-call}
use fetch_bilibili.Invariants.{
  Preserves, IsAboutTables, Preserves-return, Preserves-bind, Preserves-attempt, Preserves-call,
  Triple-preserves,
}
use fetch_bilibili.Repo.Creators.{
  has_key, inserted, merged, upsert, upsert_row, upsert_found, accepts, with_defaults, or_default,
  find_by_platform_uid, find_by_id, found,
}
use fetch_bilibili.Repo.Creators.Keys.{keyed, IsKeyed}
use fetch_bilibili.Repo.Creators.Writes.{upsert_row-IsKeyed, IsKeyed-tables}
use fetch_bilibili.Creator.Service.Asking.{publish-Preserves}
use fetch_bilibili.Creator.Service.{or_written, Service, is_removed, save}

-- Every row with this id is removed.
abbrev pub gone : ℕ → Creator → Bool
gone id c = not (c.id == id) || is_removed c

-- The table has its keys, every row with the id is removed, the id was given out, and no call fails
-- with sql.ErrNoRows, which only an empty answer gives.
pub record IsGone (id : ℕ) (w : World) : Type 0 where
  pub is_keyed : IsKeyed w
  pub rows : every (gone id) w.creators ≡ true
  pub given_out : id < w.next_creator_id
  pub honest : (n : ℕ) → w.outside.fault n ≢ some no_rows

pub IsGone-tables : (id : ℕ) → IsAboutTables (IsGone id)
IsGone-tables id = record {
  no_calls = λ w n g. record {
    is_keyed = IsKeyed-tables.no_calls w n g.is_keyed;
    rows = g.rows;
    given_out = g.given_out;
    honest = g.honest;
  };
  no_events = λ w es g. record {
    is_keyed = IsKeyed-tables.no_events w es g.is_keyed;
    rows = g.rows;
    given_out = g.given_out;
    honest = g.honest;
  };
}

change_none :
    (p : Creator → Bool) (f : Creator → Creator) (cs : List Creator)
    → any p cs ≡ false
    → change p f cs ≡ cs
change_none p f [] e = refl
change_none p f (c ∷ rest) e = ground (arith, change_none p f rest)

any-key :
    (platform uid : String) (c : Creator) (cs : List Creator)
    → has_key platform uid c ≡ true
    → any (has_key c.platform c.uid) cs ≡ false
    → any (has_key platform uid) cs ≡ false
any-key platform uid c [] h e = refl
any-key platform uid c (d ∷ rest) h e =
    ground (arith, any-key platform uid c rest, eq_iff c.platform platform, eq_iff c.uid uid)

-- The row of a key that is not removed can be written: it is no row with the id.
change-gone :
    (id : ℕ) (platform uid : String) (f : Creator → Creator) (d : Creator) (cs : List Creator)
    → ((c : Creator) → (f c).id ≡ c.id)
    → keyed cs ≡ true
    → every (gone id) cs ≡ true
    → first (has_key platform uid) cs ≡ some d
    → is_removed d ≡ false
    → every (gone id) (change (has_key platform uid) f cs) ≡ true
change-gone id platform uid f d [] q k g e r = refl
change-gone id platform uid f d (c ∷ rest) q k g e r = elim (Bool-cases (has_key platform uid c)) [
  | inl h ↦
      rw (change_none (has_key platform uid) f rest (any-key platform uid c rest h (ground arith)))
        (ground (arith, q c))
  | inr h ↦ ground (arith, change-gone id platform uid f d rest q)
]

-- What FindByPlatformUID says of the table.
abbrev pub Answered : String → String → Result Creator → World → Type 0
Answered platform uid (ok c) w = first (has_key platform uid) w.creators ≡ some c
Answered platform uid (err no_rows) w = first (has_key platform uid) w.creators ≡ none
Answered platform uid (err e) w = Unit

-- No row with the key, or one that is not removed.
abbrev pub IsFree : String → String → World → Type 0
IsFree platform uid w =
    (first (has_key platform uid) w.creators ≡ none)
    ⊎ ((d : Creator) × (first (has_key platform uid) w.creators ≡ some d) × (is_removed d ≡ false))

module _ (id : ℕ) where
  change-IsGone :
      (w : World) (c d : Creator)
      → first (has_key c.platform c.uid) w.creators ≡ some d
      → is_removed d ≡ false
      → IsGone id w
      → every (gone id) (upsert_found c (some d) w).1.creators ≡ true
  change-IsGone w c d e r g =
      change-gone id c.platform c.uid (merged (w.outside.clock w.calls) c) d w.creators (λ a. refl)
        g.is_keyed.keys g.rows e r

  upsert_found-gone :
      (c : Creator) (o : Option Creator) (w : World)
      → first (has_key c.platform c.uid) w.creators ≡ o
      → IsFree c.platform c.uid w
      → IsGone id w
      → every (gone id) (upsert_found c o w).1.creators ≡ true
  upsert_found-gone c none w e f g = ground (
    arith,
    g.rows,
    g.given_out,
    every-append (gone id) w.creators (inserted w.next_creator_id (w.outside.clock w.calls) c ∷ []),
  )
  upsert_found-gone c (some d) w e (inl n) g = cc
  upsert_found-gone c (some d) w e (inr (d', e', r)) g = change-IsGone w c d e (ground arith) g

  next_grows :
      (c : Creator) (w : World) → id < w.next_creator_id → id < (upsert_row c w).1.next_creator_id
  next_grows c w h = ground arith

  same_outside : (c : Creator) (w : World) → (upsert_row c w).1.outside ≡ w.outside
  same_outside c w = ground arith

  upsert_row-gone :
      (c : Creator) (w : World)
      → IsFree c.platform c.uid w
      → IsGone id w
      → every (gone id) (upsert_row c w).1.creators ≡ true
  upsert_row-gone c w f g = elim (Bool-cases (accepts c)) [
    | inl e ↦ rw e (upsert_found-gone c (first (has_key c.platform c.uid) w.creators) w refl f g)
    | inr e ↦ rw e g.rows
  ]

  upsert_row-IsGone :
      (c : Creator) (w : World)
      → IsFree c.platform c.uid w
      → IsGone id w
      → IsGone id (upsert_row c w).1
  upsert_row-IsGone c w f g = record {
    is_keyed = upsert_row-IsKeyed c w g.is_keyed;
    rows = upsert_row-gone c w f g;
    given_out = next_grows c w g.given_out;
    honest = rw (same_outside c w) g.honest;
  }

  -- The invariant with a free key, which a call does not change.
  abbrev pub FreeFor : Creator → World → Type 0
  FreeFor c w = IsFree c.platform c.uid w × IsGone id w

  upsert-IsGone :
      (c : Creator) → Triple (FreeFor (with_defaults c)) (upsert c) (λ a. IsGone id) (IsGone id)
  unfolding upsert
  upsert-IsGone c =
      Triple-bind (λ a. IsGone id)
        (Triple-call (upsert_row (with_defaults c))
          (record {
            run = λ w p.
                both (upsert_row (with_defaults c) w)
                  (upsert_row-IsGone (with_defaults c) w p.0 p.1);
          })
          (λ w p. ((p.0, called w p.1), called w p.1)))
        λ a.
          Triple-preserves (IsGone id)
            (Preserves-call (IsGone-tables id) (return a) (Preserves-return (IsGone id) a))
    where
      called : (w : World) → IsGone id w → IsGone id (record w { calls = suc w.calls })
      called w g = (IsGone-tables id).no_calls w (suc w.calls) g

      both : (r : Result ℕ × World) → IsGone id r.1 → Ends (λ a. IsGone id) (IsGone id) r
      both (ok a, w) g = g
      both (err e, w) g = g

  pub find_by_id-IsGone : (n : ℕ) → Preserves (IsGone id) (find_by_id n)
  unfolding find_by_id
  find_by_id-IsGone n =
      Preserves-call (IsGone-tables id) (λ w. found (first (λ c. c.id == n) w.creators) w)
        (record { holds = λ w g. asked (first (λ c. c.id == n) w.creators) w g })
    where
      asked : (o : Option Creator) (w : World) → IsGone id w → IsGone id (found o w).1
      asked none w g = g
      asked (some c) w g = g

  pub save-IsGone :
      (s : Service) (c : Creator)
      → Triple (FreeFor (with_defaults c)) (save s c) (λ a. IsGone id) (IsGone id)
  unfolding save
  save-IsGone s c =
      Triple-bind (λ a. IsGone id) (upsert-IsGone c)
        λ n. Triple-preserves (IsGone id) (
          Preserves-bind (IsGone id) _ _ (Preserves-attempt (IsGone id) _ (find_by_id-IsGone n))
            λ r.
              Preserves-bind (IsGone id) _ _
                (publish-Preserves (IsGone-tables id) s (or_written (record c { id = n }) r))
                λ u. Preserves-return (IsGone id) (or_written (record c { id = n }) r))

  -- The lookup answers for the table as it is.
  found-Answered :
      (platform uid : String) (o : Option Creator) (w : World)
      → first (has_key platform uid) w.creators ≡ o
      → IsGone id w
      → Answered platform uid (found o w).0 (found o w).1 × IsGone id (found o w).1
  found-Answered platform uid none w e g = (e, g)
  found-Answered platform uid (some c) w e g = (e, g)

  failed-Answered :
      (platform uid : String) (x : Error) (w : World)
      → x ≢ no_rows
      → Answered platform uid (err x) w
  failed-Answered platform uid no_rows w n = absurd (n refl)
  failed-Answered platform uid x w n = tt

  pub lookup-Answered :
      (platform uid : String)
      → Triple
          (IsGone id)
          (attempt (find_by_platform_uid platform uid))
          (λ r w. Answered (or_default "bilibili" platform) uid r w × IsGone id w)
          (IsGone id)
  unfolding find_by_platform_uid call
  lookup-Answered platform uid = record { run = λ w g. after (w.outside.fault w.calls) w refl g }
    where
      key : World → Option Creator
      key w = first (has_key (or_default "bilibili" platform) uid) w.creators

      after :
          (o : Option Error) (w : World)
          → w.outside.fault w.calls ≡ o
          → IsGone id w
          → Ends
              (λ r w. Answered (or_default "bilibili" platform) uid r w × IsGone id w)
              (IsGone id)
              (attempt (answer o (λ v. found (key v) v)) (record w { calls = suc w.calls }))
      after none w e g =
          found-Answered (or_default "bilibili" platform) uid (key w)
            (record w { calls = suc w.calls }) refl ((IsGone-tables id).no_calls w (suc w.calls) g)
      after (some x) w e g = (
        failed-Answered (or_default "bilibili" platform) uid x (record w { calls = suc w.calls })
            (λ f. g.honest w.calls (ground arith)),
        (IsGone-tables id).no_calls w (suc w.calls) g,
      )
