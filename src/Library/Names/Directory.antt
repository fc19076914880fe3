-- ===== src/Library/Names/Directory.antt =====
-- The directory of a creator, which is named after its uid and its name.
use Prim.Native.Char.{Char}
use Prim.Native.String.{String, [], ◌∷◌, ◌++◌}
use package.text.Mathlib.TextLemmas.{nil-append, cons-append}
use fetch_bilibili.Prelude.{◌≡◌, refl, ◌∙◌, ap, arith, Bool, true}
use fetch_bilibili.Library.Names.{
  Unicode, underscore, is_allowed_name_rune, sanitize_name, creator_directory_name,
}
use fetch_bilibili.Library.Names.Clean.{
  all_runes, ends_at, ends_clean, IsClean, sanitize_name-IsClean,
}

-- Joining texts, by clauses.
abbrev glue : String → String → String
glue [] t = t
glue (c ∷ s) t = c ∷ glue s t

append-glue : (s t : String) → s ++ t ≡ glue s t
append-glue [] t = nil-append t
append-glue (c ∷ s) t = cons-append c s t ∙ ap (λ k. c ∷ k) (append-glue s t)

named-glue :
    (u : Unicode) (uid name : String)
    → creator_directory_name u uid name ≡ glue uid (underscore ∷ sanitize_name u name)
unfolding creator_directory_name
named-glue u uid name =
    append-glue uid ("_" ++ sanitize_name u name)
    ∙ ap (glue uid) (append-glue "_" (sanitize_name u name))

all_runes-glue :
    (p : Char → Bool) (s t : String)
    → all_runes p s ≡ true
    → all_runes p t ≡ true
    → all_runes p (glue s t) ≡ true
all_runes-glue p [] t e f = f
all_runes-glue p (c ∷ s) t e f = ground (arith, e, all_runes-glue p s t)

ends_at-glue :
    (c : Char) (s : String) (d : Char) (t : String) → ends_at c (glue s (d ∷ t)) ≡ ends_at d t
ends_at-glue c [] d t = refl
ends_at-glue c (x ∷ s) d t = ends_at-glue x s d t

-- Allowed characters only, and a letter or digit at the end.
pub record IsDirectory (u : Unicode) (s : String) : Type 0 where
  pub allowed : all_runes (is_allowed_name_rune u) s ≡ true
  pub end : ends_clean s ≡ true

after_edge :
    (uid : String) (c : Char) (s : String)
    → ends_clean (c ∷ s) ≡ true
    → ends_clean (glue uid (underscore ∷ (c ∷ s))) ≡ true
after_edge [] c s e = e
after_edge (x ∷ uid) c s e = ends_at-glue x uid underscore (c ∷ s) ∙ e

directory_end :
    (u : Unicode) (uid s : String) → IsClean u s → ends_clean (glue uid (underscore ∷ s)) ≡ true
directory_end u uid [] k = absurd (ground (arith, k.not_empty))
directory_end u uid (c ∷ s) k = after_edge uid c s k.end

-- If the uid has allowed characters only, which it is not cleaned for, then so has the name of the
-- creator's directory, whatever the creator is called, and it ends neither in an underscore nor in a
-- hyphen. The letters of "unknown" are letters.
pub creator_directory_name-IsDirectory :
    (u : Unicode) (uid name : String)
    → all_runes u.is_letter "unknown" ≡ true
    → all_runes (is_allowed_name_rune u) uid ≡ true
    → IsDirectory u (creator_directory_name u uid name)
creator_directory_name-IsDirectory u uid name h e =
    let k = sanitize_name-IsClean u name h in
    rw (named-glue u uid name) (record {
      allowed =
          all_runes-glue (is_allowed_name_rune u) uid (underscore ∷ sanitize_name u name) e
            (ground (arith, k.allowed));
      end = directory_end u uid (sanitize_name u name) k;
    })
