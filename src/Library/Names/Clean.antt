-- ===== src/Library/Names/Clean.antt =====
-- What sanitizeName makes of a name.
use Prim.Native.Char.{Char}
use Prim.Native.String.{String, [], ◌∷◌}
use fetch_bilibili.Prelude.{
  ◌≡◌, refl, arith, Bool, true, false, not, ◌&&◌, if◌then◌else◌, Bool-cases, inl, inr,
}
use package.text.Mathlib.Text.{◌==◌ as str_eq}
use fetch_bilibili.Library.Names.{
  Unicode, underscore, is_edge, is_allowed_name_rune, write_name, trim_left, unless_edge,
  trim_right, sanitize_name,
}

abbrev pub all_runes : (Char → Bool) → String → Bool
all_runes p [] = true
all_runes p (c ∷ rest) = p c && all_runes p rest

abbrev pub starts_clean : String → Bool
starts_clean [] = true
starts_clean (c ∷ rest) = not (is_edge c)

abbrev pub ends_at : Char → String → Bool
ends_at c [] = not (is_edge c)
ends_at c (d ∷ rest) = ends_at d rest

abbrev pub ends_clean : String → Bool
ends_clean [] = true
ends_clean (c ∷ rest) = ends_at c rest

-- Allowed characters only, not empty, and no underscore or hyphen at either end.
pub record IsClean (u : Unicode) (s : String) : Type 0 where
  pub allowed : all_runes (is_allowed_name_rune u) s ≡ true
  pub not_empty : str_eq s "" ≡ false
  pub start : starts_clean s ≡ true
  pub end : ends_clean s ≡ true

write_name-allowed :
    (u : Unicode) (last : Bool) (s : String)
    → all_runes (is_allowed_name_rune u) (write_name u last s) ≡ true
unfolding write_name
write_name-allowed u last [] = refl
write_name-allowed u last (c ∷ rest) = elim (Bool-cases (is_allowed_name_rune u c)) [
  | inl e ↦ rw e (rw e (write_name-allowed u false rest))
  | inr e ↦ rw e (replaced last (write_name u true rest) (write_name-allowed u true rest))
]
  where
    allowed_edge : is_allowed_name_rune u underscore ≡ true
    allowed_edge = ground arith

    replaced :
        (b : Bool) (s : String)
        → all_runes (is_allowed_name_rune u) s ≡ true
        → all_runes (is_allowed_name_rune u) (if b then s else underscore ∷ s) ≡ true
    replaced true s e = e
    replaced false s e = rw allowed_edge e

trim_left-allowed :
    (p : Char → Bool) (s : String) → all_runes p s ≡ true → all_runes p (trim_left s) ≡ true
trim_left-allowed p [] e = refl
trim_left-allowed p (c ∷ rest) e = ground (arith, trim_left-allowed p rest)

trim_left-start : (s : String) → starts_clean (trim_left s) ≡ true
trim_left-start [] = refl
trim_left-start (c ∷ rest) = ground (arith, trim_left-start rest)

unless_edge-allowed :
    (p : Char → Bool) (c : Char) (s : String)
    → p c ≡ true
    → all_runes p s ≡ true
    → all_runes p (unless_edge c s) ≡ true
unless_edge-allowed p c [] e f = elim (Bool-cases (is_edge c)) [
  | inl q ↦ rw q refl
  | inr q ↦ rw q (rw e refl)
]
unless_edge-allowed p c (d ∷ rest) e f = ground (arith, e, f)

trim_right-allowed :
    (p : Char → Bool) (s : String) → all_runes p s ≡ true → all_runes p (trim_right s) ≡ true
trim_right-allowed p [] e = refl
trim_right-allowed p (c ∷ rest) e =
    unless_edge-allowed p c (trim_right rest) (ground (arith, e))
      (trim_right-allowed p rest (ground (arith, e)))

unless_edge-start :
    (c : Char) (s : String) → not (is_edge c) ≡ true → starts_clean (unless_edge c s) ≡ true
unless_edge-start c [] e = ground (arith, e)
unless_edge-start c (d ∷ rest) e = e

trim_right-start : (s : String) → starts_clean s ≡ true → starts_clean (trim_right s) ≡ true
trim_right-start [] e = refl
trim_right-start (c ∷ rest) e = unless_edge-start c (trim_right rest) e

unless_edge-end :
    (c : Char) (s : String) → ends_clean s ≡ true → ends_clean (unless_edge c s) ≡ true
unless_edge-end c [] e = elim (Bool-cases (is_edge c)) [
  | inl q ↦ rw q refl
  | inr q ↦ rw q (rw q refl)
]
unless_edge-end c (d ∷ rest) e = e

trim_right-end : (s : String) → ends_clean (trim_right s) ≡ true
trim_right-end [] = refl
trim_right-end (c ∷ rest) = unless_edge-end c (trim_right rest) (trim_right-end rest)

letters-allowed :
    (u : Unicode) (s : String)
    → all_runes u.is_letter s ≡ true
    → all_runes (is_allowed_name_rune u) s ≡ true
letters-allowed u [] e = refl
letters-allowed u (c ∷ rest) e = elim (Bool-cases (u.is_letter c)) [
  | inl q ↦ rw q (letters-allowed u rest (ground (arith, e, q)))
  | inr q ↦ absurd (ground (arith, e, q))
]

unknown-IsClean : (u : Unicode) → all_runes u.is_letter "unknown" ≡ true → IsClean u "unknown"
unknown-IsClean u h = record {
  allowed = letters-allowed u "unknown" h;
  not_empty = refl;
  start = refl;
  end = refl;
}

-- What sanitizeName makes of a name is clean whatever the name is, if the letters of "unknown" are
-- letters.
pub sanitize_name-IsClean :
    (u : Unicode) (name : String)
    → all_runes u.is_letter "unknown" ≡ true
    → IsClean u (sanitize_name u name)
unfolding sanitize_name
sanitize_name-IsClean u name h =
    let written = write_name u false (u.trim_space name) in
    elim (Bool-cases (str_eq (u.trim_space name) "")) [
      | inl e ↦ rw e (unknown-IsClean u h)
      | inr e ↦ rw e (elim (Bool-cases (str_eq (trim_right (trim_left written)) "")) [
        | inl q ↦ rw q (unknown-IsClean u h)
        | inr q ↦ rw q (record {
          allowed = trim_right-allowed (is_allowed_name_rune u) (trim_left written) (
              trim_left-allowed (is_allowed_name_rune u) written
                (write_name-allowed u false (u.trim_space name)));
          not_empty = q;
          start = trim_right-start (trim_left written) (trim_left-start written);
          end = trim_right-end (trim_left written);
        })
      ])
    ]
