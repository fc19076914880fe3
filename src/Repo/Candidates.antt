-- ===== src/Repo/Candidates.antt =====
-- internal/repo/mysql/candidate_repo.go over the table candidate_creators: Upsert, the two lookups,
-- List and UpdateReviewStatus. Texts are compared exactly; a status is a value of the column's ENUM,
-- or `unset` for the empty text.
use Prim.Native.String.{String}
use package.text.Mathlib.Text.{◌==◌ as str_eq}
use fetch_bilibili.Prelude.{
  ℕ, suc, ◌-◌, ◌*◌, ltb, ◌==◌, Bool, true, false, not, ◌&&◌, ◌||◌, Option, none, some, List, [],
  ◌∷◌, ◌++◌, keep, tally, take, drop, first, any, change, if◌then◌else◌,
}
use fetch_bilibili.Prelude.Int.{ℤ, pos, leb_ℤ, ltb_ℤ, eqb_ℤ}
use fetch_bilibili.Prelude.Sort.{sort_by}
use fetch_bilibili.Repo.Models.{
  CandidateCreator, CandidateStatus, unset, new, reviewing, approved, ignored, blocked,
}
use fetch_bilibili.Repo.Creators.{or_default}
use fetch_bilibili.Repo.Videos.{limit_or}
use fetch_bilibili.World.{
  no_rows, not_found, data_truncated, bad_transition, Result, ok, err, World, M, ◌>>=◌, return,
  throw, call, attempt,
}

abbrev pub same_status : CandidateStatus → CandidateStatus → Bool
same_status unset unset = true
same_status new new = true
same_status reviewing reviewing = true
same_status approved approved = true
same_status ignored ignored = true
same_status blocked blocked = true
same_status _ _ = false

-- The columns status and follower_count.
abbrev pub accepts : CandidateCreator → Bool
accepts c = not (same_status c.status unset) && leb_ℤ (pos 0) c.follower_count

abbrev pub has_key : String → String → CandidateCreator → Bool
has_key platform uid c = str_eq c.platform platform && str_eq c.uid uid

abbrev status_or_new : CandidateStatus → CandidateStatus
status_or_new unset = new
status_or_new s = s

abbrev pub with_defaults : World → CandidateCreator → CandidateCreator
with_defaults w c = record c {
  platform = or_default "bilibili" (w.outside.trim c.platform);
  status = status_or_new c.status;
  score_version = or_default "v1" (w.outside.trim c.score_version);
}

abbrev pub inserted : ℕ → ℕ → CandidateCreator → CandidateCreator
inserted id now c = record c { id = id; created_at = now; updated_at = now }

-- COALESCE of two times, where 0 is NULL.
abbrev time_or : ℕ → ℕ → ℕ
time_or old at = if at == 0 then old else at

-- ON DUPLICATE KEY UPDATE.
abbrev pub merged : ℕ → CandidateCreator → CandidateCreator → CandidateCreator
merged now c old = record old {
  name = or_default old.name c.name;
  avatar_url = or_default old.avatar_url c.avatar_url;
  profile_url = or_default old.profile_url c.profile_url;
  follower_count = c.follower_count;
  status = c.status;
  score = c.score;
  score_version = c.score_version;
  last_discovered_at = time_or old.last_discovered_at c.last_discovered_at;
  last_scored_at = time_or old.last_scored_at c.last_scored_at;
  approved_at = time_or old.approved_at c.approved_at;
  ignored_at = time_or old.ignored_at c.ignored_at;
  blocked_at = time_or old.blocked_at c.blocked_at;
  updated_at = now;
}

abbrev pub upsert_found : CandidateCreator → Option CandidateCreator → M ℕ
upsert_found c none w = (
  ok w.next_candidate_id,
  record w {
    candidates = w.candidates ++ inserted w.next_candidate_id (w.outside.clock w.calls) c ∷ [];
    next_candidate_id = suc w.next_candidate_id;
  },
)
upsert_found c (some old) w = (
  ok old.id,
  record w {
    candidates =
        change (has_key c.platform c.uid) (merged (w.outside.clock w.calls) c) w.candidates;
  },
)

abbrev pub upsert_row : CandidateCreator → M ℕ
upsert_row c w =
    if accepts c
    then upsert_found c (first (has_key c.platform c.uid) w.candidates) w
    else throw data_truncated w

abbrev pub found : Option CandidateCreator → M CandidateCreator
found none = throw not_found
found (some c) = return c

abbrev pub as_not_found : Result CandidateCreator → M CandidateCreator
as_not_found (ok c) = return c
as_not_found (err no_rows) = throw not_found
as_not_found (err e) = throw e

unfoldable pub find_by_id : ℕ → M CandidateCreator
unfolding call
find_by_id id =
    attempt (call (λ w. found (first (λ c. c.id == id) w.candidates) w)) >>= as_not_found

-- The blank platform stands for the default one, and any other is taken as it is.
unfoldable pub find_by_platform_uid : String → String → M CandidateCreator
unfolding call
find_by_platform_uid platform uid =
    attempt (
      call (λ w.
        found
          (first
            (has_key (if str_eq (w.outside.trim platform) "" then "bilibili" else platform) uid)
            w.candidates)
          w))
    >>= as_not_found

unfoldable pub upsert : CandidateCreator → M CandidateCreator
unfolding call find_by_id
upsert c = do
  id ← call (λ w. upsert_row (with_defaults w c) w)
  id' ← call (return id)
  find_by_id id'

pub record CandidateListFilter : Type 0 where
  pub status : CandidateStatus
  pub min_score : ℤ
  pub keyword : String
  pub page : ℤ
  pub page_size : ℤ

abbrev in_status : CandidateStatus → CandidateCreator → Bool
in_status unset c = true
in_status s c = same_status c.status s

abbrev of_keyword : World → String → CandidateCreator → Bool
of_keyword w keyword c =
    str_eq keyword ""
    || w.outside.is_like keyword c.name
    || w.outside.is_like keyword c.uid
    || any (λ s. s.candidate_creator_id == c.id && w.outside.is_like keyword s.source_label)
        w.candidate_sources

abbrev pub passes : World → CandidateListFilter → CandidateCreator → Bool
passes w filter c =
    in_status filter.status c
    && (leb_ℤ filter.min_score (pos 0) || leb_ℤ filter.min_score c.score)
    && of_keyword w (w.outside.trim filter.keyword) c

abbrev rank : CandidateStatus → ℕ
rank reviewing = 0
rank approved = 1
rank ignored = 2
rank blocked = 3
rank _ = 4

-- The ORDER BY.
abbrev pub listed_before : CandidateCreator → CandidateCreator → Bool
listed_before a b =
    if not (rank a.status == rank b.status)
    then ltb (rank a.status) (rank b.status)
    else if not (eqb_ℤ a.score b.score)
    then ltb_ℤ b.score a.score
    else if not (a.last_discovered_at == b.last_discovered_at)
    then ltb b.last_discovered_at a.last_discovered_at
    else ltb b.id a.id

abbrev page_of : CandidateListFilter → List CandidateCreator → List CandidateCreator
page_of filter cs =
    let size = limit_or 20 filter.page_size in
    take size (drop ((limit_or 1 filter.page - 1) * size) cs)

-- The page and the number of all that pass. An offset that is too large for an int is left out.
unfoldable pub list : CandidateListFilter → M (List CandidateCreator × ℕ)
unfolding call
list filter = do
  total ← call (λ w. (ok (tally (passes w filter) w.candidates), w))
  items ←
      call (λ w.
        (ok (page_of filter (sort_by listed_before (keep (passes w filter) w.candidates))), w))
  return (items, total)

abbrev pub member_status : CandidateStatus → List CandidateStatus → Bool
member_status s [] = false
member_status s (t ∷ rest) = same_status s t || member_status s rest

-- The time of the change, in the status's own column. A time of 0 is not written.
abbrev pub stamped : CandidateStatus → ℕ → CandidateCreator → CandidateCreator
stamped approved at c = record c { approved_at = time_or c.approved_at at }
stamped ignored at c = record c { ignored_at = time_or c.ignored_at at }
stamped blocked at c = record c { blocked_at = time_or c.blocked_at at }
stamped _ at c = c

abbrev pub reviewed : CandidateStatus → ℕ → ℕ → CandidateCreator → CandidateCreator
reviewed to at now c = stamped to at (record c { status = to; updated_at = now })

-- MySQL counts the rows that the UPDATE changes.
abbrev is_changed : CandidateStatus → ℕ → ℕ → CandidateCreator → Bool
is_changed to at now c = not (
    same_status c.status to
    && c.updated_at == now
    && (stamped to at c).approved_at == c.approved_at
    && (stamped to at c).ignored_at == c.ignored_at
    && (stamped to at c).blocked_at == c.blocked_at)

abbrev pub is_source : ℕ → List CandidateStatus → CandidateCreator → Bool
is_source id from c = c.id == id && member_status c.status from

abbrev pub or_itself : List CandidateStatus → CandidateStatus → List CandidateStatus
or_itself [] to = to ∷ []
or_itself (s ∷ rest) to = s ∷ rest

abbrev pub update_rows : ℕ → List CandidateStatus → CandidateStatus → ℕ → M ℕ
update_rows id from to at w =
    if same_status to unset && any (is_source id from) w.candidates
    then throw data_truncated w
    else (
      ok (
          tally (λ c. is_source id from c && is_changed to at (w.outside.clock w.calls) c)
            w.candidates),
      record w {
        candidates =
            change (is_source id from) (reviewed to at (w.outside.clock w.calls)) w.candidates;
      },
    )

abbrev pub current_status : Option CandidateCreator → M CandidateStatus
current_status none = throw no_rows
current_status (some c) = return c.status

-- Why no row was changed.
abbrev pub refused : Result CandidateStatus → M (Unit {0})
refused (ok current) = throw bad_transition
refused (err no_rows) = throw not_found
refused (err e) = throw e

unfoldable pub update_review_status : ℕ → List CandidateStatus → CandidateStatus → ℕ → M (Unit {0})
unfolding call
update_review_status id from to at = do
  n ← call (update_rows id (or_itself from to) to at)
  affected ← call (return n)
  (if ltb 0 affected
      then return tt
      else attempt (call (λ w. current_status (first (λ c. c.id == id) w.candidates) w))
        >>= refused)
