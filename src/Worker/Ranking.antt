-- ===== src/Worker/Ranking.antt =====
-- internal/worker/handler.go: lessCleanupCandidate and filterCleanupCandidates.
use Prim.Native.String.{String}
use Prim.Native.Char.{code}
use fetch_bilibili.Prelude.{
  ℕ, ◌+◌, ltb, ◌==◌, Bool, true, false, not, ◌&&◌, List, [], ◌∷◌, keep, if◌then◌else◌,
}
use fetch_bilibili.Prelude.Int.{pos, pos_part, ltb_ℤ, leb_ℤ, eqb_ℤ}
use fetch_bilibili.Repo.Models.{VideoState, out_of_print, CleanupCandidate}
use fetch_bilibili.Repo.Videos.{same_state}
use fetch_bilibili.Worker.Handler.{Handler}
mod Lexicographic
pub mod Order

abbrev pub is_rare : VideoState → Bool
is_rare state = same_state state out_of_print

-- Go compares texts by their bytes, which in UTF-8 is the order of the code points.
abbrev pub codes : String → List ℕ
codes String.[] = []
codes (String.◌∷◌ c s) = code c ∷ codes s

abbrev pub lt_codes : List ℕ → List ℕ → Bool
lt_codes [] [] = false
lt_codes [] (b ∷ bs) = true
lt_codes (a ∷ as') [] = false
lt_codes (a ∷ as') (b ∷ bs) = let rest = lt_codes as' bs in if a == b then rest else ltb a b

abbrev pub eq_codes : List ℕ → List ℕ → Bool
eq_codes [] [] = true
eq_codes [] (b ∷ bs) = false
eq_codes (a ∷ as') [] = false
eq_codes (a ∷ as') (b ∷ bs) = (a == b) && eq_codes as' bs

abbrev bool_eq : Bool → Bool → Bool
bool_eq true b = b
bool_eq false b = not b

unfoldable pub less_cleanup_candidate : CleanupCandidate → CleanupCandidate → Bool
less_cleanup_candidate a b =
    if not (bool_eq (is_rare a.state) (is_rare b.state))
    then not (is_rare a.state) && is_rare b.state
    else if not (eqb_ℤ a.creator_follower_count b.creator_follower_count)
    then ltb_ℤ a.creator_follower_count b.creator_follower_count
    else if not (eqb_ℤ a.view_count b.view_count)
    then ltb_ℤ a.view_count b.view_count
    else if not (eqb_ℤ a.favorite_count b.favorite_count)
    then ltb_ℤ a.favorite_count b.favorite_count
    else if not (eqb_ℤ a.file_size_bytes b.file_size_bytes)
    then ltb_ℤ b.file_size_bytes a.file_size_bytes
    else if not (eq_codes (codes a.title) (codes b.title))
    then lt_codes (codes a.title) (codes b.title)
    else ltb a.file_id b.file_id

-- `candidate.FileCreatedAt.Add(h.cleanupRetention).After(now)`, for a positive retention.
unfoldable pub is_retained : Handler → ℕ → CleanupCandidate → Bool
is_retained h now_ c =
    not (leb_ℤ h.cleanup_retention (pos 0))
    && (not (c.file_created_at == 0) && ltb now_ (c.file_created_at + pos_part h.cleanup_retention))

unfoldable pub filter_cleanup_candidates :
    Handler → ℕ → List CleanupCandidate → List CleanupCandidate
unfolding is_retained
filter_cleanup_candidates h now_ cs =
    if leb_ℤ h.cleanup_retention (pos 0) then cs else keep (λ c. not (is_retained h now_ c)) cs
