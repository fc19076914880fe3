-- ===== src/Discovery/Scorer.antt =====
-- internal/discovery/scorer.go, with the weights of internal/config/config.go. strings.TrimSpace is
-- the parameter `trim`; a detail's JSON is given by the value that is encoded.
use Prim.Native.String.{String}
use package.text.Mathlib.Text.{◌==◌ as str_eq}
use fetch_bilibili.Prelude.{
  ℕ, Bool, true, false, not, ◌&&◌, ◌||◌, Option, none, some, List, [], ◌∷◌, ◌++◌, length,
  if◌then◌else◌,
}
use fetch_bilibili.Prelude.Int.{ℤ, pos, negsuc, ◌+ℤ◌, ◌*ℤ◌, i64, ltb_ℤ, leb_ℤ, eqb_ℤ}
use fetch_bilibili.Repo.Models.{
  DetailJson, keywords, video_count, level, hits, CandidateCreatorScoreDetail,
}
pub mod Bounds

pub record KeywordHit : Type 0 where
  pub keyword : String
  pub score : ℤ

pub record ScoreInput : Type 0 where
  pub candidate_id : ℕ
  pub keyword_hits : List KeywordHit
  pub activity_30d : ℤ
  pub similarity_level : String
  pub deletion_trace_hits : List String
  pub follower_count : ℤ
  pub ignore_count : ℤ

-- DiscoveryScoreWeights, with the fields of its parts.
pub record ScoreWeights : Type 0 where
  pub keyword_risk_max : ℤ
  pub activity_low : ℤ
  pub activity_medium : ℤ
  pub activity_high : ℤ
  pub similarity_weak : ℤ
  pub similarity_medium : ℤ
  pub similarity_strong : ℤ
  pub deletion_trace_single : ℤ
  pub deletion_trace_max : ℤ
  pub small_bonus : ℤ
  pub oversize_penalty : ℤ
  pub ignore_penalty : ℤ

pub record ScoreResult : Type 0 where
  pub total : ℤ
  pub score_version : String
  pub details : List CandidateCreatorScoreDetail

abbrev pub score_of_hits : ℤ → List KeywordHit → ℤ
score_of_hits total [] = total
score_of_hits total (hit ∷ rest) =
    score_of_hits (if leb_ℤ hit.score (pos 0) then total else i64 (total +ℤ hit.score)) rest

-- `if max > 0 && total > max { total = max }`.
abbrev pub capped : ℤ → ℤ → ℤ
capped max total = if ltb_ℤ (pos 0) max && ltb_ℤ max total then max else total

-- A factor whose score is 0 gives no detail.
abbrev pub unless_zero : CandidateCreatorScoreDetail → Option CandidateCreatorScoreDetail
unless_zero d = if eqb_ℤ d.score_delta (pos 0) then none else some d

abbrev is_in : String → List String → Bool
is_in s [] = false
is_in s (t ∷ rest) = str_eq t s || is_in s rest

abbrev pub activity : ScoreWeights → ℤ → ℤ
activity g n =
    if leb_ℤ (pos 6) n
    then g.activity_high
    else if leb_ℤ (pos 3) n
    then g.activity_medium
    else if leb_ℤ (pos 1) n
    then g.activity_low
    else pos 0

abbrev pub similarity : ScoreWeights → String → ℤ
similarity g s =
    if str_eq s "weak"
    then g.similarity_weak
    else if str_eq s "medium"
    then g.similarity_medium
    else if str_eq s "strong"
    then g.similarity_strong
    else pos 0

abbrev pub account_size : ScoreWeights → ℤ → ℤ × String
account_size g n =
    if ltb_ℤ (pos 0) n && leb_ℤ n (pos 500000)
    then (g.small_bonus, "中小号加权")
    else if leb_ℤ (pos 5000000) n
    then (g.oversize_penalty, "超大号惩罚")
    else (pos 0, "")

unfoldable pub score_activity : ScoreWeights → ScoreInput → Option CandidateCreatorScoreDetail
score_activity g input = unless_zero (record {
  id = 0;
  candidate_creator_id = input.candidate_id;
  created_at = 0;
  factor_key = "activity_30d";
  factor_label = "最近 30 天更新活跃";
  score_delta = activity g input.activity_30d;
  detail_json = video_count input.activity_30d;
})

unfoldable pub score_account_size : ScoreWeights → ScoreInput → Option CandidateCreatorScoreDetail
score_account_size g input = unless_zero (record {
  id = 0;
  candidate_creator_id = input.candidate_id;
  created_at = 0;
  factor_key = "account_size";
  factor_label = (account_size g input.follower_count).1;
  score_delta = (account_size g input.follower_count).0;
  detail_json = DetailJson.follower_count input.follower_count;
})

unfoldable pub score_feedback : ScoreWeights → ScoreInput → Option CandidateCreatorScoreDetail
score_feedback g input =
    if leb_ℤ input.ignore_count (pos 0) || eqb_ℤ g.ignore_penalty (pos 0)
    then none
    else some (record {
      id = 0;
      candidate_creator_id = input.candidate_id;
      created_at = 0;
      factor_key = "feedback";
      factor_label = "人工反馈惩罚";
      score_delta = i64 (input.ignore_count *ℤ g.ignore_penalty);
      detail_json = DetailJson.ignore_count input.ignore_count;
    })

abbrev pub add_detail : Option CandidateCreatorScoreDetail → ScoreResult → ScoreResult
add_detail none r = r
add_detail (some d) r = record r {
  total = i64 (r.total +ℤ d.score_delta);
  details = r.details ++ d ∷ [];
}

abbrev pub add_details : List (Option CandidateCreatorScoreDetail) → ScoreResult → ScoreResult
add_details [] r = r
add_details (d ∷ rest) r = add_details rest (add_detail d r)

-- The weights of a fresh configuration (Default of internal/config/config.go).
abbrev pub default_weights : ScoreWeights
default_weights = record {
  keyword_risk_max = pos 40;
  activity_low = pos 5;
  activity_medium = pos 10;
  activity_high = pos 15;
  similarity_weak = pos 5;
  similarity_medium = pos 10;
  similarity_strong = pos 20;
  deletion_trace_single = pos 10;
  deletion_trace_max = pos 20;
  small_bonus = pos 10;
  oversize_penalty = negsuc 4;
  ignore_penalty = negsuc 14;
}

module _ (trim : String → String) where
  abbrev pub keywords_of : List KeywordHit → List String
  keywords_of [] = []
  keywords_of (hit ∷ rest) =
      let more = keywords_of rest in
      if leb_ℤ hit.score (pos 0) || str_eq (trim hit.keyword) ""
      then more
      else trim hit.keyword ∷ more

  abbrev unique_from : List String → List String → List String
  unique_from seen [] = []
  unique_from seen (v ∷ rest) =
      let skipped = str_eq (trim v) "" || is_in (trim v) seen in
      let more = unique_from (if skipped then seen else trim v ∷ seen) rest in
      if skipped then more else trim v ∷ more

  unfoldable pub unique_strings : List String → List String
  unique_strings values = unique_from [] values

  unfoldable pub score_keyword_risk : ScoreWeights → ScoreInput → Option CandidateCreatorScoreDetail
  score_keyword_risk g input =
      if leb_ℤ (score_of_hits (pos 0) input.keyword_hits) (pos 0)
      then none
      else some (record {
        id = 0;
        candidate_creator_id = input.candidate_id;
        created_at = 0;
        factor_key = "keyword_risk";
        factor_label = "命中高风险关键词";
        score_delta = capped g.keyword_risk_max (score_of_hits (pos 0) input.keyword_hits);
        detail_json = keywords (keywords_of input.keyword_hits);
      })

  unfoldable pub score_similarity : ScoreWeights → ScoreInput → Option CandidateCreatorScoreDetail
  score_similarity g input = unless_zero (record {
    id = 0;
    candidate_creator_id = input.candidate_id;
    created_at = 0;
    factor_key = "similarity";
    factor_label = "与已追踪池内容相似";
    score_delta = similarity g (trim input.similarity_level);
    detail_json = level input.similarity_level;
  })

  unfoldable pub score_deletion_trace :
      ScoreWeights → ScoreInput → Option CandidateCreatorScoreDetail
  unfolding unique_strings
  score_deletion_trace g input =
      let found = unique_strings input.deletion_trace_hits in
      unless_zero (record {
        id = 0;
        candidate_creator_id = input.candidate_id;
        created_at = 0;
        factor_key = "deletion_trace";
        factor_label = "命中删稿/补档痕迹";
        score_delta =
            capped g.deletion_trace_max (i64 (pos (length found) *ℤ g.deletion_trace_single));
        detail_json = hits found;
      })

  -- The factors, in the order of Score.
  abbrev pub factors : ScoreWeights → ScoreInput → List (Option CandidateCreatorScoreDetail)
  factors g input =
      score_keyword_risk g input
      ∷ score_activity g input
      ∷ score_similarity g input
      ∷ score_deletion_trace g input
      ∷ score_account_size g input
      ∷ score_feedback g input
      ∷ []

  unfoldable pub score : ScoreWeights → String → ScoreInput → ScoreResult
  score g version input =
      add_details (factors g input)
        (record { total = pos 0; score_version = version; details = [] })
