-- ===== src/Library/Names.antt =====
-- internal/library/path.go: sanitizeName and the directory of a creator. strings.TrimSpace,
-- unicode.IsLetter and unicode.IsDigit are given.
use Prim.Native.Char.{Char, char, code}
use Prim.Native.String.{String, [], ◌∷◌, ◌++◌}
use fetch_bilibili.Prelude.{ℕ, ◌==◌, Bool, true, false, not, ◌&&◌, ◌||◌, List, if◌then◌else◌}
use fetch_bilibili.Prelude.{[] as nil, ◌∷◌ as cons}
use package.text.Mathlib.Text.{◌==◌ as str_eq}
use fetch_bilibili.Library.Path.{normalize_platform}
pub mod Clean
pub mod Directory

pub record Unicode : Type 0 where
  pub is_letter : Char → Bool
  pub is_digit : Char → Bool
  pub trim_space : String → String

-- '_' and '-'.
abbrev pub is_edge : Char → Bool
is_edge c = code c == 95 || code c == 45

abbrev pub is_allowed_name_rune : Unicode → Char → Bool
is_allowed_name_rune u c = u.is_letter c || u.is_digit c || is_edge c

abbrev pub underscore : Char
underscore = char 95 tt

-- The loop; the flag is `lastUnderscore`.
unfoldable pub write_name : Unicode → Bool → String → String
write_name u last [] = []
write_name u last (c ∷ rest) =
    let kept = write_name u false rest in
    let replaced = write_name u true rest in
    if is_allowed_name_rune u c then c ∷ kept else if last then replaced else underscore ∷ replaced

-- strings.Trim with the set "_-".
abbrev pub trim_left : String → String
trim_left [] = []
trim_left (c ∷ rest) = let later = trim_left rest in if is_edge c then later else c ∷ rest

abbrev pub unless_edge : Char → String → String
unless_edge c [] = if is_edge c then [] else c ∷ []
unless_edge c (d ∷ rest) = c ∷ d ∷ rest

abbrev pub trim_right : String → String
trim_right [] = []
trim_right (c ∷ rest) = unless_edge c (trim_right rest)

unfoldable pub sanitize_name : Unicode → String → String
unfolding write_name
sanitize_name u name =
    if str_eq (u.trim_space name) ""
    then "unknown"
    else let cleaned = trim_right (trim_left (write_name u false (u.trim_space name))) in
      if str_eq cleaned "" then "unknown" else cleaned

unfoldable pub creator_directory_name : Unicode → String → String → String
unfolding sanitize_name
creator_directory_name u uid name = uid ++ ("_" ++ sanitize_name u name)

unfoldable pub creator_directory_path :
    (List String → String) → Unicode → String → String → String → String → String
unfolding creator_directory_name
creator_directory_path join u root platform uid name = join (
    cons root (
      cons "library" (
        cons (normalize_platform platform)
          (cons "creators" (cons (creator_directory_name u uid name) nil)))))
