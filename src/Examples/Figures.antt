-- ===== src/Examples/Figures.antt =====
-- The limiter, the storage policy, the ranking and the scores on concrete figures.
use Prim.Native.String.{String}
use fetch_bilibili.Prelude.{
  ℕ, ◌+◌, ◌*◌, ◌/◌, ◌≤◌, ◌≡◌, refl, arith, true, false, not, ◌&&◌, ◌||◌, ◌==◌, List, [], ◌∷◌,
}
use fetch_bilibili.Prelude.Int.{pos, pos_part, neg_part}
use fetch_bilibili.Worker.Limiter.{Limiter, second, new_limiter, reserve, grants}
use fetch_bilibili.Worker.Limiter.Spacing.{limiter_rate}
use fetch_bilibili.Worker.Policy.{set_storage_policy, threshold}
use fetch_bilibili.Worker.Policy.Threshold.{set_storage_policy-threshold}
use fetch_bilibili.Worker.Ranking.{less_cleanup_candidate, is_rare}
use fetch_bilibili.Worker.Ranking.Order.{less_strict_order}
use fetch_bilibili.Discovery.Scorer.{ScoreInput, default_weights, unique_strings, score}
use fetch_bilibili.Discovery.Scorer.Bounds.{score_bounds, score_adds_up, sum_from}
use fetch_bilibili.Examples.Store.{handler, candidate, rare_candidate}

abbrev two_per_second : Limiter
two_per_second = record { interval = 500000000; last = 0 }

abbrev calls : List ℕ
calls = 2000000000 ∷ 2000000000 ∷ 2000000000 ∷ []

limiter_rate_example : 2000000000 + 2 * (second / 2) ≤ 3000000000
unfolding new_limiter grants reserve
limiter_rate_example =
    limiter_rate (pos 2) two_per_second calls 0 2 2000000000 3000000000 refl (omega arith)
      (omega arith, (omega arith, (omega arith, tt))) refl refl

set_storage_policy-threshold_example :
    (threshold (set_storage_policy (pos 1000) (pos 0) true handler) ≡ pos 900)
    × (threshold (set_storage_policy (pos 1000) (pos 800) true handler) ≡ pos 800)
set_storage_policy-threshold_example =
    set_storage_policy-threshold handler 1000 799 true (omega arith) (omega arith)

less_strict_order_example :
    (less_cleanup_candidate candidate candidate ≡ false)
    × ((less_cleanup_candidate candidate rare_candidate
          && less_cleanup_candidate rare_candidate candidate
          && not (less_cleanup_candidate candidate candidate))
        ≡ false)
    × ((less_cleanup_candidate candidate rare_candidate
          || less_cleanup_candidate rare_candidate candidate
          || (candidate.file_id == rare_candidate.file_id))
        ≡ true)
    × ((is_rare candidate.state
          && not (is_rare rare_candidate.state)
          && less_cleanup_candidate candidate rare_candidate)
        ≡ false)
less_strict_order_example = less_strict_order candidate rare_candidate candidate

abbrev input : ScoreInput
input = record {
  candidate_id = 1;
  keyword_hits =
      record { keyword = "a"; score = pos 30 } ∷ record { keyword = "b"; score = pos 30 } ∷ [];
  activity_30d = pos 4;
  similarity_level = "strong";
  deletion_trace_hits = "x" ∷ "x" ∷ [];
  follower_count = pos 6000000;
  ignore_count = pos 1;
}

abbrev no_trim : String → String
no_trim s = s

score_bounds_example :
    (pos_part (score no_trim default_weights "v1" input).total ≤ 105)
    × (neg_part (score no_trim default_weights "v1" input).total ≤ 20)
unfolding unique_strings
score_bounds_example = score_bounds no_trim "v1" input (omega arith) (omega arith)

score_adds_up_example :
    (score no_trim default_weights "v1" input).total
    ≡ sum_from (pos 0) (score no_trim default_weights "v1" input).details
score_adds_up_example = score_adds_up no_trim default_weights "v1" input
