-- ===== src/Discovery/Keywords/Selection.antt =====
-- The keywords of a run.
use Prim.Native.String.{String}
use package.text.Mathlib.Text.{◌==◌ as str_eq}
use package.text.Mathlib.TextEquality.{eq_iff}
use package.text.Mathlib.TextPositions.{eq_refl}
use fetch_bilibili.Prelude.{
  ℕ, zero, suc, ◌≤◌, ◌≡◌, refl, ◌∙◌, arith, Bool, true, false, not, ◌&&◌, ◌||◌, List, [], ◌∷◌, ◌++◌,
  length, length-append, any, every, every-append, Bool-cases, inl, inr,
}
use fetch_bilibili.Prelude.Int.{ℤ, pos, negsuc}
use fetch_bilibili.Discovery.Keywords.{
  Texts, member_text, is_fresh, add_fresh, is_full, collect_keywords, runtime_keywords,
}

abbrev pub no_repeats : List String → Bool
no_repeats [] = true
no_repeats (k ∷ ks) = not (member_text k ks) && no_repeats ks

abbrev pub not_blank : String → Bool
not_blank k = not (str_eq k "")

-- The keyword is one of those that are configured, without its blanks.
abbrev pub from_config : Texts → List String → String → Bool
from_config t raws k = any (λ r. str_eq (t.trim r) k) raws

abbrev pub AtMost : ℤ → ℕ → Type 0
AtMost (pos (suc n)) k = k ≤ suc n
AtMost _ k = Unit

pub record IsSelection (t : Texts) (limit : ℤ) (raws ks : List String) : Type 0 where
  pub unique : no_repeats ks ≡ true
  pub not_empty : every not_blank ks ≡ true
  pub configured : every (from_config t raws) ks ≡ true
  pub at_most : AtMost limit (length ks)

member_text-append :
    (s : String) (ks : List String) (k : String)
    → member_text s (ks ++ k ∷ []) ≡ (member_text s ks || str_eq k s)
member_text-append s [] k = ground arith
member_text-append s (x ∷ ks) k = ground (arith, member_text-append s ks k)

no_repeats-append :
    (ks : List String) (k : String)
    → no_repeats ks ≡ true
    → member_text k ks ≡ false
    → no_repeats (ks ++ k ∷ []) ≡ true
no_repeats-append [] k n m = refl
no_repeats-append (x ∷ ks) k n m =
    ground (arith, no_repeats-append ks k, member_text-append x ks k, eq_iff x k, eq_iff k x)

room : (limit : ℤ) (ks : List String) → is_full limit ks ≡ false → AtMost limit (length ks)
room (negsuc n) ks f = tt
room (pos zero) ks f = tt
room (pos (suc n)) ks f = ground (arith, f)

room_for :
    (limit : ℤ) (s : String) (ks : List String)
    → is_full limit ks ≡ false
    → AtMost limit (length (add_fresh s ks))
room_for (negsuc n) s ks f = tt
room_for (pos zero) s ks f = tt
room_for (pos (suc n)) s ks f = ground (arith, f, length-append ks (s ∷ []))

still_open :
    (limit : ℤ) (s : String) (ks : List String)
    → is_full limit ks ≡ false
    → (is_fresh s ks && is_full limit (add_fresh s ks)) ≡ false
    → is_full limit (add_fresh s ks) ≡ false
still_open limit s ks f e = elim (Bool-cases (is_fresh s ks)) [
  | inl q ↦ ground (arith, e, q)
  | inr q ↦ rw q f
]

from_config-cons :
    (t : Texts) (r : String) (raws xs : List String)
    → every (λ x. from_config t raws (t.trim x)) xs ≡ true
    → every (λ x. from_config t (r ∷ raws) (t.trim x)) xs ≡ true
from_config-cons t r raws [] e = refl
from_config-cons t r raws (x ∷ xs) e = ground (arith, from_config-cons t r raws xs)

all-from_config :
    (t : Texts) (raws : List String) → every (λ r. from_config t raws (t.trim r)) raws ≡ true
all-from_config t [] = refl
all-from_config t (r ∷ raws) =
    ground (arith, eq_refl (t.trim r), from_config-cons t r raws raws (all-from_config t raws))

module _ (t : Texts) (limit : ℤ) (all : List String) where
  -- What holds of the keywords so far; there is room for one more.
  record Kept (ks : List String) : Type 0 where
    unique : no_repeats ks ≡ true
    not_empty : every not_blank ks ≡ true
    configured : every (from_config t all) ks ≡ true

  add_fresh-Kept :
      (s : String) (ks : List String) → from_config t all s ≡ true → Kept ks → Kept (add_fresh s ks)
  add_fresh-Kept s ks c k = elim (Bool-cases (is_fresh s ks)) [
    | inl e ↦ rw e (record {
      unique = no_repeats-append ks s k.unique (ground (arith, e));
      not_empty = every-append not_blank ks (s ∷ []) ∙ ground (arith, k.not_empty, e);
      configured = every-append (from_config t all) ks (s ∷ []) ∙ ground (arith, k.configured, c);
    })
    | inr e ↦ rw e k
  ]

  selected : (ks : List String) → Kept ks → AtMost limit (length ks) → IsSelection t limit all ks
  selected ks k l = record {
    unique = k.unique;
    not_empty = k.not_empty;
    configured = k.configured;
    at_most = l;
  }

  collect-IsSelection :
      (ks raws : List String)
      → every (λ r. from_config t all (t.trim r)) raws ≡ true
      → Kept ks
      → is_full limit ks ≡ false
      → IsSelection t limit all (collect_keywords t limit ks raws)
  unfolding collect_keywords
  collect-IsSelection ks [] r k f = selected ks k (room limit ks f)
  collect-IsSelection ks (raw ∷ rest) r k f =
      let next = add_fresh (t.trim raw) ks in
      let kept = add_fresh-Kept (t.trim raw) ks (ground (arith, r)) k in
      elim (Bool-cases (is_fresh (t.trim raw) ks && is_full limit next)) [
        | inl e ↦ rw e (selected next kept (room_for limit (t.trim raw) ks f))
        | inr e ↦ rw e (
            collect-IsSelection next rest (ground (arith, r)) kept
              (still_open limit (t.trim raw) ks f e))
      ]

-- The keywords of a run are configured ones without their blanks, none of them empty or repeated, and
-- no more than MaxKeywordsPerRun where that is set.
pub runtime_keywords-IsSelection :
    (t : Texts) (limit : ℤ) (raws : List String)
    → IsSelection t limit raws (runtime_keywords t limit raws)
unfolding runtime_keywords
runtime_keywords-IsSelection t limit raws =
    collect-IsSelection t limit raws [] raws (all-from_config t raws)
      (record { unique = refl; not_empty = refl; configured = refl }) (not_full limit)
  where
    not_full : (z : ℤ) → is_full z [] ≡ false
    not_full z = ground arith
