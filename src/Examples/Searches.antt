-- ===== src/Examples/Searches.antt =====
-- A run of the keyword discoverer over a platform that answers every search with three creators, of
-- which one is blocked.
use Prim.Native.String.{String}
use fetch_bilibili.Prelude.{ℕ, ◌≡◌, refl, true, false, [], ◌∷◌, length}
use fetch_bilibili.Prelude.Int.{pos, i64, ◌*ℤ◌, ◌+ℤ◌}
use fetch_bilibili.Prelude.Sort.{sort_by}
use fetch_bilibili.World.{now, Result, ok, err, World}
use fetch_bilibili.Discovery.Scorer.{
  default_weights, score_feedback, score_account_size, score_deletion_trace, score_similarity,
  score_activity, score_keyword_risk,
}
use fetch_bilibili.Discovery.Keywords.{Texts, CreatorHit}
use fetch_bilibili.Discovery.Keywords.Run.{
  Client, KeywordDiscoverer, KeywordDiscoverResult, discover,
}
use fetch_bilibili.Discovery.Keywords.Bounds.{WithinLimit, discover_limited}
use fetch_bilibili.Repo.Models.{blocked}
use fetch_bilibili.Examples.Store.{full_store}
use fetch_bilibili.Examples.Reviews.{candidate}

abbrev texts : Texts
texts = record { trim = λ s. s; contains = λ s t. false }

abbrev creator_hit : String → CreatorHit
creator_hit uid = record {
  uid = uid;
  name = "d";
  avatar_url = "";
  profile_url = "";
  follower_count = pos 10;
  signature = "";
}

abbrev client : Client
client = record {
  search_creators =
      λ n keyword page size. ok (creator_hit "7" ∷ creator_hit "8" ∷ creator_hit "9" ∷ []);
  search_videos = λ n keyword page size. ok [];
}

abbrev discoverer : KeywordDiscoverer
discoverer = record {
  has_parts = true;
  client = client;
  texts = texts;
  encode = λ keyword videos. keyword;
  weights = default_weights;
  scorer_version = "v1";
  max_keywords_per_run = pos 2;
  max_pages_per_keyword = pos 1;
  max_candidates_per_run = pos 1;
  score_version = "v1";
  keywords = "a" ∷ "b" ∷ [];
  page_size = pos 20;
}

abbrev searched_store : World
searched_store = record full_store { candidates = candidate 1 blocked ∷ [] }

discover_limited_example : WithinLimit 1 1 (discover discoverer searched_store)
discover_limited_example = discover_limited discoverer 0 searched_store refl

abbrev figures : Result KeywordDiscoverResult × World → ℕ × ℕ × ℕ
figures (ok r, w) = (r.discovered, r.skipped_blocked, length w.candidates)
figures (err e, w) = (0, 0, 0)

-- The blocked creator is left out, the limit takes the first of the others, and its row is added.
one_found : figures (discover discoverer searched_store) ≡ (1, 1, 2)
unfolding discover now score_feedback score_account_size score_deletion_trace i64 ◌*ℤ◌ sort_by
    score_similarity score_activity score_keyword_risk ◌+ℤ◌
one_found = refl
