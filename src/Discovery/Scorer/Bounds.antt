-- ===== src/Discovery/Scorer/Bounds.antt =====
-- How large a score can be, and what it is made of.
use Prim.Native.String.{String}
use fetch_bilibili.Prelude.{
  ℕ, ◌+◌, ◌*◌, ◌≤◌, ◌<◌, ◌≡◌, refl, sym, arith, Option, none, some, List, [], ◌∷◌, ◌++◌, length,
}
use fetch_bilibili.Prelude.Int.{ℤ, pos, pos_part, neg_part, ◌+ℤ◌, ◌*ℤ◌, i64}
use fetch_bilibili.Repo.Models.{CandidateCreatorScoreDetail}
use fetch_bilibili.Discovery.Scorer.{
  ScoreInput, ScoreWeights, ScoreResult, default_weights, add_detail, add_details, score_activity,
  score_account_size, score_feedback, unique_strings, score_keyword_risk, score_similarity,
  score_deletion_trace, factors, score,
}

-- -low … high.
record Within (low high : ℕ) (z : ℤ) : Type 0 where
  at_most : pos_part z ≤ high
  at_least : neg_part z ≤ low

abbrev delta : Option CandidateCreatorScoreDetail → ℤ
delta none = pos 0
delta (some d) = d.score_delta

none_yet : Within 0 0 (pos 0)
none_yet = record { at_most = ground arith; at_least = ground arith }

sum-Within :
    (a b : ℤ) (l k m n : ℕ)
    → Within l k a
    → Within m n b
    → k + n < 9223372036854775808
    → l + m < 9223372036854775808
    → Within (l + m) (k + n) (i64 (a +ℤ b))
unfolding i64 ◌+ℤ◌
sum-Within a b l k m n p q h g = ground arith

add_detail-Within :
    (o : Option CandidateCreatorScoreDetail) (r : ScoreResult) (l k m n : ℕ)
    → Within l k r.total
    → Within m n (delta o)
    → k + n < 9223372036854775808
    → l + m < 9223372036854775808
    → Within (l + m) (k + n) (add_detail o r).total
add_detail-Within none r l k m n p q h g = ground arith
add_detail-Within (some d) r l k m n p q h g = sum-Within r.total d.score_delta l k m n p q h g

activity-Within : (input : ScoreInput) → Within 0 15 (delta (score_activity default_weights input))
unfolding score_activity
activity-Within input = ground arith

account_size-Within :
    (input : ScoreInput) → Within 5 10 (delta (score_account_size default_weights input))
unfolding score_account_size
account_size-Within input = ground arith

feedback-Within :
    (input : ScoreInput)
    → pos_part input.ignore_count < 600000000000000000
    → Within (15 * pos_part input.ignore_count) 0 (delta (score_feedback default_weights input))
unfolding score_feedback i64 ◌*ℤ◌
feedback-Within input h = ground arith

module _ (trim : String → String) where
  keyword_risk-Within :
      (input : ScoreInput) → Within 0 40 (delta (score_keyword_risk trim default_weights input))
  unfolding score_keyword_risk
  keyword_risk-Within input = ground arith

  similarity-Within :
      (input : ScoreInput) → Within 0 20 (delta (score_similarity trim default_weights input))
  unfolding score_similarity
  similarity-Within input = ground arith

  deletion_trace-Within :
      (input : ScoreInput)
      → length (unique_strings trim input.deletion_trace_hits) < 900000000000000000
      → Within 0 20 (delta (score_deletion_trace trim default_weights input))
  unfolding score_deletion_trace i64 ◌*ℤ◌
  deletion_trace-Within input h = ground arith

  -- With the default weights, and fewer than 9·10^17 different traces and 6·10^17 ignores, a score
  -- is at most 105, and at least -5 less 15 for each time that the candidate was ignored.
  pub score_bounds :
      (version : String) (input : ScoreInput)
      → length (unique_strings trim input.deletion_trace_hits) < 900000000000000000
      → pos_part input.ignore_count < 600000000000000000
      → (pos_part (score trim default_weights version input).total ≤ 105)
        × (neg_part (score trim default_weights version input).total
            ≤ 5 + 15 * pos_part input.ignore_count)
  unfolding score
  score_bounds version input few seldom =
      let s0 : ScoreResult = record { total = pos 0; score_version = version; details = [] } in
      let s1 = add_detail (score_keyword_risk trim default_weights input) s0 in
      let s2 = add_detail (score_activity default_weights input) s1 in
      let s3 = add_detail (score_similarity trim default_weights input) s2 in
      let s4 = add_detail (score_deletion_trace trim default_weights input) s3 in
      let s5 = add_detail (score_account_size default_weights input) s4 in
      let p1 =
        add_detail-Within (score_keyword_risk trim default_weights input) s0 0 0 0 40 (none_yet)
          (keyword_risk-Within input) (ground arith) (ground arith) in
      let p2 =
        add_detail-Within (score_activity default_weights input) s1 0 40 0 15 p1
          (activity-Within input) (ground arith) (ground arith) in
      let p3 =
        add_detail-Within (score_similarity trim default_weights input) s2 0 55 0 20 p2
          (similarity-Within input) (ground arith) (ground arith) in
      let p4 =
        add_detail-Within (score_deletion_trace trim default_weights input) s3 0 75 0 20 p3
          (deletion_trace-Within input few) (ground arith) (ground arith) in
      let p5 =
        add_detail-Within (score_account_size default_weights input) s4 0 95 5 10 p4
          (account_size-Within input) (ground arith) (ground arith) in
      let p6 =
        add_detail-Within (score_feedback default_weights input) s5 5 105
          (15 * pos_part input.ignore_count) 0 p5 (feedback-Within input seldom) (ground arith)
          (ground arith) in
      (p6.at_most, p6.at_least)

-- The 64-bit sum of the details' scores, from a first total.
abbrev pub sum_from : ℤ → List CandidateCreatorScoreDetail → ℤ
sum_from total [] = total
sum_from total (d ∷ rest) = sum_from (i64 (total +ℤ d.score_delta)) rest

sum_from-snoc :
    (ds : List CandidateCreatorScoreDetail) (d : CandidateCreatorScoreDetail) (total : ℤ)
    → sum_from total (ds ++ d ∷ []) ≡ i64 (sum_from total ds +ℤ d.score_delta)
sum_from-snoc [] d total = refl
sum_from-snoc (x ∷ rest) d total = sum_from-snoc rest d (i64 (total +ℤ x.score_delta))

abbrev AddsUp : ScoreResult → Type 0
AddsUp r = r.total ≡ sum_from (pos 0) r.details

add_detail-AddsUp :
    (o : Option CandidateCreatorScoreDetail) (r : ScoreResult) → AddsUp r → AddsUp (add_detail o r)
add_detail-AddsUp none r e = e
add_detail-AddsUp (some d) r e = rw (e) (sym (sum_from-snoc r.details d (pos 0)))

add_details-AddsUp :
    (os : List (Option CandidateCreatorScoreDetail)) (r : ScoreResult)
    → AddsUp r
    → AddsUp (add_details os r)
add_details-AddsUp [] r e = e
add_details-AddsUp (o ∷ rest) r e =
    add_details-AddsUp rest (add_detail o r) (add_detail-AddsUp o r e)

-- A score is the 64-bit sum of the details that are stored with it, in their order.
pub score_adds_up :
    (trim : String → String) (g : ScoreWeights) (version : String) (input : ScoreInput)
    → (score trim g version input).total ≡ sum_from (pos 0) (score trim g version input).details
unfolding score
score_adds_up trim g version input =
    add_details-AddsUp (factors trim g input)
      (record { total = pos 0; score_version = version; details = [] }) refl
