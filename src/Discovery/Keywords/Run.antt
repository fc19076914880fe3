-- ===== src/Discovery/Keywords/Run.antt =====
-- internal/discovery/keyword_discoverer.go: Discover. The client is the platform's search, whose
-- answers are given by the number of the call. The map of the aggregates, the order of its keys and
-- the cache are lists.
use Prim.Native.String.{String}
use package.text.Mathlib.Text.{◌==◌ as str_eq}
use fetch_bilibili.Prelude.{
  ℕ, zero, suc, leb, Bool, true, false, not, ◌&&◌, Option, none, some, List, [], ◌∷◌, length, map,
  if◌then◌else◌,
}
use fetch_bilibili.Prelude.Int.{ℤ, pos, negsuc}
use fetch_bilibili.Repo.Models.{CandidateCreator, CandidateCreatorScoreDetail, blocked}
use fetch_bilibili.Repo.Videos.{limit_or}
use fetch_bilibili.Repo.Candidates.{same_status, find_by_platform_uid, upsert}
use fetch_bilibili.Repo.CandidateDetails.{replace_sources, replace_score_details}
use fetch_bilibili.Discovery.Scorer.{ScoreWeights, ScoreResult, score}
use fetch_bilibili.Discovery.Keywords.{
  Texts, CreatorHit, VideoHit, KeywordPageHit, member_text, runtime_keywords, merge_keyword_page,
}
use fetch_bilibili.Discovery.Keywords.Aggregate.{
  KeywordCandidateAggregate, new_keyword_candidate_aggregate, merge, build_candidate,
  build_score_input, build_sources,
}
use fetch_bilibili.World.{
  not_found, not_initialized, Result, ok, err, M, ◌>>=◌, ◌>>◌, return, throw, attempt, now,
}

pub record Client : Type 0 where
  pub search_creators : ℕ → String → ℕ → ℕ → Result (List CreatorHit)
  pub search_videos : ℕ → String → ℕ → ℕ → Result (List VideoHit)

-- The discoverer with the part of its configuration that it uses. A client, repository or scorer
-- that is not there is given by `has_parts`.
pub record KeywordDiscoverer : Type 0 where
  pub has_parts : Bool
  pub client : Client
  pub texts : Texts
  pub encode : String → List VideoHit → String
  pub weights : ScoreWeights
  pub scorer_version : String
  pub max_keywords_per_run : ℤ
  pub max_pages_per_keyword : ℤ
  pub max_candidates_per_run : ℤ
  pub score_version : String
  pub keywords : List String
  pub page_size : ℤ

pub record KeywordDiscoverResult : Type 0 where
  pub keywords : ℕ
  pub discovered : ℕ
  pub skipped_blocked : ℕ

-- What a run knows: the aggregates in their order, the candidates that were looked up, and the
-- blocked ones.
pub record SearchProgress : Type 0 where
  pub aggregates : List (String × KeywordCandidateAggregate)
  pub cache : List (String × Option CandidateCreator)
  pub skipped : List String

abbrev pub find_key : {A : Type 0} → String → List (String × A) → Option A
find_key key [] = none
find_key key ((k, a) ∷ rest) =
    let later = find_key key rest in if str_eq k key then some a else later

abbrev pub put_key : {A : Type 0} → String → A → List (String × A) → List (String × A)
put_key key a [] = (key, a) ∷ []
put_key key a ((k, b) ∷ rest) =
    let later = put_key key a rest in if str_eq k key then (key, a) ∷ rest else (k, b) ∷ later

abbrev pub is_over : ℤ → SearchProgress → Bool
is_over (negsuc n) p = false
is_over (pos n) p = not (leb n 0) && leb n (length p.aggregates)

abbrev pub known : Result CandidateCreator → M (Option CandidateCreator)
known (ok c) = return (some c)
known (err not_found) = return none
known (err e) = throw e

-- The candidate of a uid, from the cache or the table.
abbrev pub look_up : String → Option (Option CandidateCreator) → M (Option CandidateCreator)
look_up uid (some found) = return found
look_up uid none = attempt (find_by_platform_uid "bilibili" uid) >>= known

abbrev pub is_blocked : Option CandidateCreator → Bool
is_blocked none = false
is_blocked (some c) = same_status c.status blocked

abbrev skip : String → SearchProgress → SearchProgress
skip uid p = record p { skipped = if member_text uid p.skipped then p.skipped else uid ∷ p.skipped }

abbrev pub cached : String → Option CandidateCreator → SearchProgress → SearchProgress
cached uid found p = record p { cache = put_key uid found p.cache }

abbrev pub add_new :
    KeywordDiscoverer → KeywordPageHit → Option CandidateCreator → SearchProgress → SearchProgress
add_new d hit found p = record p {
  aggregates =
      put_key hit.key (merge d.texts hit (new_keyword_candidate_aggregate found)) p.aggregates;
}

-- A hit: true if the run has all the candidates that it may have.
abbrev pub visited :
    KeywordDiscoverer
    → KeywordPageHit
    → SearchProgress
    → Option CandidateCreator
    → M (Bool × SearchProgress)
visited d hit p found =
    if is_blocked found
    then return (false, skip hit.key p)
    else if is_over d.max_candidates_per_run p
    then return (true, p)
    else return (false, add_new d hit found p)

abbrev pub visit_hit :
    KeywordDiscoverer
    → KeywordPageHit
    → SearchProgress
    → Option KeywordCandidateAggregate
    → M (Bool × SearchProgress)
visit_hit d hit p (some a) =
    return (false, record p { aggregates = put_key hit.key (merge d.texts hit a) p.aggregates })
visit_hit d hit p none = do
  found ← look_up hit.key (find_key hit.key p.cache)
  visited d hit (cached hit.key found p) found

unfoldable pub visit_hits :
    KeywordDiscoverer → List KeywordPageHit → SearchProgress → M (Bool × SearchProgress)
unfolding find_by_platform_uid merge new_keyword_candidate_aggregate
visit_hits d [] p = return (is_over d.max_candidates_per_run p, p)
visit_hits d (hit ∷ rest) p = visit_hit d hit p (find_key hit.key p.aggregates) >>= λ r. elim r.0 [
  | true ↦ return (true, r.1)
  | false ↦ visit_hits d rest r.1
]

unfoldable pub search_creators : KeywordDiscoverer → String → ℕ → M (List CreatorHit)
search_creators d keyword page w = (
  d.client.search_creators w.calls keyword page (limit_or 20 d.page_size),
  record w { calls = suc w.calls },
)

unfoldable pub search_videos : KeywordDiscoverer → String → ℕ → M (List VideoHit)
search_videos d keyword page w = (
  d.client.search_videos w.calls keyword page (limit_or 20 d.page_size),
  record w { calls = suc w.calls },
)

abbrev is_empty : {A : Type 0} → List A → Bool
is_empty [] = true
is_empty (x ∷ xs) = false

-- The pages of a keyword from one on, as many as are left.
unfoldable pub search_pages :
    KeywordDiscoverer → String → ℕ → ℕ → SearchProgress → M (Bool × SearchProgress)
unfolding search_creators search_videos visit_hits merge_keyword_page
search_pages d keyword zero page p = return (false, p)
search_pages d keyword (suc left) page p = do
  creators ← search_creators d keyword page
  videos ← search_videos d keyword page
  elim (is_empty creators && is_empty videos) [
    | true ↦ return (false, p)
    | false ↦ visit_hits d (merge_keyword_page d.texts keyword creators videos) p >>= λ r.
        elim r.0 [ true ↦ return (true, r.1) | false ↦ search_pages d keyword left (suc page) r.1 ]
  ]

unfoldable pub search_keywords : KeywordDiscoverer → List String → SearchProgress → M SearchProgress
unfolding search_pages
search_keywords d [] p = return p
search_keywords d (keyword ∷ rest) p =
    search_pages d keyword (limit_or 1 d.max_pages_per_keyword) 1 p >>= λ r. elim r.0 [
      | true ↦ return r.1
      | false ↦ search_keywords d rest r.1
    ]

abbrev pub of_candidate : ℕ → CandidateCreatorScoreDetail → CandidateCreatorScoreDetail
of_candidate id detail = record detail { candidate_creator_id = id }

abbrev pub scored : ScoreResult → ℕ → CandidateCreator → CandidateCreator
scored r at c = record c { score = r.total; score_version = r.score_version; last_scored_at = at }

unfoldable pub save_aggregate : KeywordDiscoverer → ℕ → KeywordCandidateAggregate → M (Unit {0})
unfolding upsert replace_sources replace_score_details score build_candidate build_score_input
    build_sources
save_aggregate d at a = do
  saved ← upsert (
      scored (score d.texts.trim d.weights d.scorer_version (build_score_input d.texts a at)) at
        (build_candidate d.texts a at d.score_version))
  replace_sources saved.id (build_sources d.encode a saved.id)
  replace_score_details saved.id (
      map (of_candidate saved.id)
        (score d.texts.trim d.weights d.scorer_version (build_score_input d.texts a at)).details)

unfoldable pub save_all :
    KeywordDiscoverer → ℕ → List (String × KeywordCandidateAggregate) → M (Unit {0})
unfolding save_aggregate
save_all d at [] = return tt
save_all d at ((uid, a) ∷ rest) = do save_aggregate d at a; save_all d at rest

abbrev pub search_and_save : KeywordDiscoverer → List String → M KeywordDiscoverResult
search_and_save d [] = return (record { keywords = 0; discovered = 0; skipped_blocked = 0 })
search_and_save d (k ∷ ks) = do
  p ← search_keywords d (k ∷ ks) (record { aggregates = []; cache = []; skipped = [] })
  at ← now
  save_all d at p.aggregates
  return (record {
    keywords = length (k ∷ ks);
    discovered = length p.aggregates;
    skipped_blocked = length p.skipped;
  })

unfoldable pub discover : KeywordDiscoverer → M KeywordDiscoverResult
unfolding search_keywords save_all runtime_keywords
discover d =
    if not d.has_parts
    then throw not_initialized
    else search_and_save d (runtime_keywords d.texts d.max_keywords_per_run d.keywords)
