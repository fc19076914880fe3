-- ===== src/Discovery/Keywords/Aggregate.antt =====
-- internal/discovery/keyword_discoverer.go: what the hits of the pages add up to for one creator, and
-- the candidate, the input of its score and its sources that are built from it. Each map and the
-- order of its keys are one list. Videos that sort.Slice takes for equal keep their order, and
-- `encode` is the JSON of a source.
use Prim.Native.Nat.{Ordering}
use Prim.Native.String.{String, compare, ◌++◌ as str_append}
use package.text.Mathlib.Text.{◌==◌ as str_eq}
use fetch_bilibili.Prelude.{
  ℕ, ◌-◌, ltb, leb, ◌==◌, Bool, true, false, not, ◌&&◌, Option, none, some, List, [], ◌∷◌, map,
  tally, take, if◌then◌else◌,
}
use fetch_bilibili.Prelude.Int.{ℤ, pos, eqb_ℤ, ltb_ℤ}
use fetch_bilibili.Prelude.Sort.{sort_by}
use fetch_bilibili.Repo.Models.{
  CandidateCreator, CandidateCreatorSource, CandidateStatus, unset, reviewing, ignored,
}
use fetch_bilibili.Repo.Creators.{or_default}
use fetch_bilibili.Repo.Candidates.{same_status}
use fetch_bilibili.Discovery.Scorer.{KeywordHit, ScoreInput}
use fetch_bilibili.Discovery.Keywords.{
  Texts, CreatorHit, VideoHit, KeywordPageHit, add_fresh, merge_creator_hit, no_creator,
  keyword_risk_weight, detect_deletion_trace, profile_url_for_uid,
}

-- The videos under their ids without blanks.
abbrev pub Videos : Type 0
Videos = List (String × VideoHit)

pub record KeywordSourceAggregate : Type 0 where
  pub keyword : String
  pub weight : ℤ
  pub videos : Videos

pub record KeywordCandidateAggregate : Type 0 where
  pub existing : Option CandidateCreator
  pub creator : CreatorHit
  pub sources : List KeywordSourceAggregate
  pub videos : Videos

unfoldable pub new_keyword_candidate_aggregate : Option CandidateCreator → KeywordCandidateAggregate
new_keyword_candidate_aggregate existing = record {
  existing = existing;
  creator = no_creator;
  sources = [];
  videos = [];
}

abbrev pub put_video : String → VideoHit → Videos → Videos
put_video id v [] = (id, v) ∷ []
put_video id v ((k, u) ∷ rest) =
    let later = put_video id v rest in if str_eq k id then (id, v) ∷ rest else (k, u) ∷ later

-- The source of a keyword, made if it is not there, and changed.
abbrev pub ensure_source :
    Texts
    → String
    → (KeywordSourceAggregate → KeywordSourceAggregate)
    → List KeywordSourceAggregate
    → List KeywordSourceAggregate
ensure_source t keyword f [] =
    f (record { keyword = keyword; weight = keyword_risk_weight t keyword; videos = [] }) ∷ []
ensure_source t keyword f (s ∷ rest) =
    let later = ensure_source t keyword f rest in
    if str_eq s.keyword keyword then f s ∷ rest else s ∷ later

abbrev pub weighed : Texts → String → KeywordSourceAggregate → KeywordSourceAggregate
weighed t keyword s =
    if eqb_ℤ s.weight (pos 0) then record s { weight = keyword_risk_weight t keyword } else s

abbrev pub unless_blank : String → VideoHit → Videos → Videos
unless_blank id v vs = if str_eq id "" then vs else put_video id v vs

abbrev pub completed : Texts → VideoHit → CreatorHit → CreatorHit
completed t v c = record c {
  name =
      if str_eq (t.trim c.name) "" && not (str_eq (t.trim v.creator_name) "")
      then t.trim v.creator_name
      else c.name;
  profile_url =
      if str_eq (t.trim c.profile_url) "" then profile_url_for_uid t v.uid else c.profile_url;
}

unfoldable pub add_video :
    Texts → String → VideoHit → KeywordCandidateAggregate → KeywordCandidateAggregate
unfolding keyword_risk_weight profile_url_for_uid
add_video t keyword v a = record a {
  creator = completed t v a.creator;
  sources =
      ensure_source t keyword
        (λ s. record s { videos = unless_blank (t.trim v.video_id) v s.videos }) a.sources;
  videos = unless_blank (t.trim v.video_id) v a.videos;
}

unfoldable pub add_hit_videos :
    Texts → String → List VideoHit → KeywordCandidateAggregate → KeywordCandidateAggregate
unfolding add_video
add_hit_videos t keyword [] a = a
add_hit_videos t keyword (v ∷ rest) a = add_hit_videos t keyword rest (add_video t keyword v a)

unfoldable pub merge :
    Texts → KeywordPageHit → KeywordCandidateAggregate → KeywordCandidateAggregate
unfolding merge_creator_hit keyword_risk_weight add_hit_videos
merge t hit a = add_hit_videos t hit.keyword hit.videos (record a {
  creator = merge_creator_hit t a.creator hit.creator;
  sources = ensure_source t hit.keyword (weighed t hit.keyword) a.sources;
})

abbrev status_or_reviewing : CandidateStatus → CandidateStatus
status_or_reviewing unset = reviewing
status_or_reviewing s = s

-- What is known already fills the gaps, and its review stays.
abbrev pub with_existing : Option CandidateCreator → CandidateCreator → CandidateCreator
with_existing none c = c
with_existing (some old) c = record c {
  id = old.id;
  name = or_default old.name c.name;
  avatar_url = or_default old.avatar_url c.avatar_url;
  profile_url = or_default old.profile_url c.profile_url;
  follower_count = if eqb_ℤ c.follower_count (pos 0) then old.follower_count else c.follower_count;
  status = status_or_reviewing old.status;
  approved_at = old.approved_at;
  ignored_at = old.ignored_at;
  blocked_at = old.blocked_at;
}

unfoldable pub build_candidate : Texts → KeywordCandidateAggregate → ℕ → String → CandidateCreator
build_candidate t a now score_version = with_existing a.existing (record {
  id = 0;
  platform = "bilibili";
  uid = a.creator.uid;
  name = t.trim a.creator.name;
  avatar_url = t.trim a.creator.avatar_url;
  profile_url = t.trim a.creator.profile_url;
  follower_count = a.creator.follower_count;
  status = reviewing;
  score = pos 0;
  score_version = score_version;
  last_discovered_at = now;
  last_scored_at = 0;
  approved_at = 0;
  ignored_at = 0;
  blocked_at = 0;
  created_at = 0;
  updated_at = 0;
})

-- 30 days, in nanoseconds.
abbrev month : ℕ
month = 2592000000000000

abbrev is_recent : ℕ → String × VideoHit → Bool
is_recent now (k, v) =
    not (v.publish_time == 0) && leb (now - v.publish_time) month && ltb v.publish_time now

-- The set of the markers, in the order in which they are found.
abbrev add_all : List String → List String → List String
add_all [] set = set
add_all (x ∷ rest) set = add_all rest (add_fresh x set)

unfoldable pub source_traces : Texts → List KeywordSourceAggregate → List String → List String
unfolding detect_deletion_trace
source_traces t [] set = set
source_traces t (s ∷ rest) set =
    source_traces t rest (add_all (detect_deletion_trace t s.keyword) set)

unfoldable pub video_traces : Texts → Videos → List String → List String
unfolding detect_deletion_trace
video_traces t [] set = set
video_traces t ((k, v) ∷ rest) set =
    video_traces t rest (add_all (detect_deletion_trace t v.title) set)

abbrev is_lt : Ordering → Bool
is_lt Ordering.lt = true
is_lt _ = false

abbrev known_followers : Option CandidateCreator → ℤ
known_followers none = pos 0
known_followers (some old) = old.follower_count

abbrev pub max_int64 : ℤ → ℤ → ℤ
max_int64 a b = if ltb_ℤ b a then a else b

abbrev ignore_count_of : Option CandidateCreator → ℤ
ignore_count_of none = pos 0
ignore_count_of (some old) = if same_status old.status ignored then pos 1 else pos 0

abbrev keyword_hit : KeywordSourceAggregate → KeywordHit
keyword_hit s = record { keyword = s.keyword; score = s.weight }

unfoldable pub build_score_input : Texts → KeywordCandidateAggregate → ℕ → ScoreInput
unfolding source_traces video_traces
build_score_input t a now = record {
  candidate_id = 0;
  keyword_hits = map keyword_hit a.sources;
  activity_30d = pos (tally (is_recent now) a.videos);
  similarity_level = "";
  deletion_trace_hits =
      sort_by (λ x y. is_lt (compare x y)) (video_traces t a.videos (source_traces t a.sources []));
  follower_count = max_int64 a.creator.follower_count (known_followers a.existing);
  ignore_count = ignore_count_of a.existing;
}

abbrev newer_video : VideoHit → VideoHit → Bool
newer_video a b =
    if a.publish_time == b.publish_time
    then is_lt (compare a.video_id b.video_id)
    else ltb b.publish_time a.publish_time

abbrev value_of : String × VideoHit → VideoHit
value_of (k, v) = v

abbrev pub source_of :
    (String → List VideoHit → String) → ℕ → KeywordSourceAggregate → CandidateCreatorSource
source_of encode id s = record {
  id = 0;
  candidate_creator_id = id;
  source_type = "keyword";
  source_value = s.keyword;
  source_label = str_append "关键词：" s.keyword;
  weight = s.weight;
  detail_json = encode s.keyword (take 5 (sort_by newer_video (map value_of s.videos)));
  created_at = 0;
}

unfoldable pub build_sources :
    (String → List VideoHit → String) → KeywordCandidateAggregate → ℕ → List CandidateCreatorSource
build_sources encode a id = map (source_of encode id) a.sources
