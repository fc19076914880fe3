-- ===== src/Library/Path.antt =====
-- internal/library/path.go: where the store keeps a video. filepath.Join is given as `join`.
use Prim.Native.String.{String, ◌++◌}
use package.text.Mathlib.Text.{◌==◌ as str_eq}
use fetch_bilibili.Prelude.{List, [], ◌∷◌, if◌then◌else◌}

unfoldable pub store_root_path : (List String → String) → String → String
store_root_path join root = join (root ∷ "store" ∷ [])

abbrev pub normalize_platform : String → String
normalize_platform platform = if str_eq platform "" then "bilibili" else platform

unfoldable pub store_video_path : (List String → String) → String → String → String → String
unfolding store_root_path
store_video_path join root platform video_id =
    join (store_root_path join root ∷ normalize_platform platform ∷ (video_id ++ ".mp4") ∷ [])
