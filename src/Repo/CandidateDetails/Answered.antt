-- ===== src/Repo/CandidateDetails/Answered.antt =====
-- When ReplaceSources succeeds.
use mathlib.Core.Path.{subst}
use fetch_bilibili.Prelude.{
  ℕ, suc, ◌==◌, ◌≡◌, refl, ◌∙◌, sym, ap, arith, Bool, true, false, not, ◌&&◌, none, List, [], ◌∷◌,
  ◌++◌, keep, any, every, Bool-cases, inl, inr, if◌then◌else◌,
}
use fetch_bilibili.Repo.Models.{CandidateCreatorSource}
use fetch_bilibili.World.{duplicate_key, Outside, Result, ok, err, World, call}
use fetch_bilibili.Effects.{Keeps, Keeps-return, Keeps-bind, IsStore, Keeps-call}
use fetch_bilibili.Repo.CandidateDetails.{
  Tables, dedupe_candidate_sources, begin, end_transaction, transaction, source_row, insert_source,
  insert_sources, replace_sources,
}
use fetch_bilibili.Repo.CandidateDetails.Replaced.{of_candidate, clash, any-append}

-- No call fails.
abbrev pub Calm : World → Type 0
Calm w = (n : ℕ) → w.outside.fault n ≡ none

abbrev same_pair : Outside → CandidateCreatorSource → CandidateCreatorSource → Bool
same_pair o s t =
    o.same_text s.source_type t.source_type && o.same_text s.source_value t.source_value

-- No two sources have the same type and value in the eyes of the database.
abbrev pub apart : Outside → List CandidateCreatorSource → Bool
apart o [] = true
apart o (s ∷ rest) = not (any (same_pair o s) rest) && apart o rest

abbrev free : Outside → ℕ → List CandidateCreatorSource → CandidateCreatorSource → Bool
free o id table s = not (any (clash o id s) table)

self : (id : ℕ) → (id == id) ≡ true
self id = ground arith

module _ (o : Outside) (id : ℕ) where
  free-row :
      (n now : ℕ) (table : List CandidateCreatorSource) (s x : CandidateCreatorSource)
      → free o id (table ++ source_row n id now s ∷ []) x
        ≡ (free o id table x && not (same_pair o s x))
  free-row n now table s x =
      ground (arith, self id, any-append (clash o id x) table (source_row n id now s ∷ []))

  -- A new row takes its own key from the sources to come, and no other.
  free-append :
      (n now : ℕ) (table : List CandidateCreatorSource) (s : CandidateCreatorSource)
      (xs : List CandidateCreatorSource)
      → every (free o id (table ++ source_row n id now s ∷ [])) xs
        ≡ (every (free o id table) xs && not (any (same_pair o s) xs))
  free-append n now table s [] = refl
  free-append n now table s (x ∷ xs) =
      ground (arith, free-append n now table s xs, free-row n now table s x)

  free-deleted :
      (table xs : List CandidateCreatorSource)
      → every (free o id (keep (λ s. not (of_candidate id s)) table)) xs ≡ true
  free-deleted table [] = refl
  free-deleted table (x ∷ xs) = ground (arith, free-deleted table xs, none-left x table)
    where
      none-left :
          (x : CandidateCreatorSource) (ts : List CandidateCreatorSource)
          → any (clash o id x) (keep (λ s. not (of_candidate id s)) ts) ≡ false
      none-left x [] = refl
      none-left x (t ∷ ts) = ground (arith, none-left x ts)

abbrev verdict : Bool → Result (Unit {0})
verdict b = if b then ok tt else err duplicate_key

insert_sources-verdict :
    (id : ℕ) (xs : List CandidateCreatorSource) (w : World)
    → Calm w
    → any (λ c. c.id == id) w.candidates ≡ true
    → (insert_sources id xs w).0
      ≡ verdict (every (free w.outside id w.candidate_sources) xs && apart w.outside xs)
unfolding insert_sources call
insert_sources-verdict id [] w q k = refl
insert_sources-verdict id (s ∷ xs) w q k =
    elim (Bool-cases (any (clash w.outside id s) w.candidate_sources)) [
      | inl c ↦ rw (q w.calls) (rw c refl)
      | inr c ↦ rw (q w.calls) (
          rw c (
            rw k (
              insert_sources-verdict id xs
                (record w {
                  calls = suc w.calls;
                  candidate_sources =
                      w.candidate_sources
                      ++ source_row w.next_source_id id (w.outside.clock (suc w.calls)) s ∷ [];
                  next_source_id = suc w.next_source_id;
                })
                q k
              ∙ ap verdict (
                  ground (
                    arith,
                    free-append w.outside id w.next_source_id (w.outside.clock (suc w.calls))
                        w.candidate_sources s xs,
                  )))))
    ]

abbrev outside_of : World → Outside
outside_of w = w.outside

outside-IsStore : IsStore outside_of
outside-IsStore = record {
  no_calls = λ w n. refl;
  no_snapshot = λ w s. refl;
  no_events = λ w es. refl;
  no_global = λ w l. refl;
  no_limiters = λ w ls. refl;
}

insert_sources-Keeps :
    (id : ℕ) (xs : List CandidateCreatorSource) → Keeps outside_of (insert_sources id xs)
unfolding insert_sources
insert_sources-Keeps id [] = Keeps-return outside_of tt
insert_sources-Keeps id (s ∷ xs) =
    Keeps-bind outside_of _ _
      (Keeps-call outside-IsStore (insert_source id s) (record { kept = λ w. ground arith }))
      (λ _. insert_sources-Keeps id xs)

end_transaction-Calm :
    (before : Tables) (r : Result (Unit {0}) × World)
    → Calm r.1
    → (end_transaction before r.0 r.1).0 ≡ r.0
unfolding call
end_transaction-Calm before (ok u, v) q = rw (q v.calls) refl
end_transaction-Calm before (err e, v) q = refl

-- With no failing call and a candidate that is there, the replacement succeeds if no two of the
-- sources without duplicates have a type and a value that the database takes for the same, and is
-- refused for a duplicate key if two of them have.
pub replace_sources_succeeds :
    (id : ℕ) (sources : List CandidateCreatorSource) (w : World)
    → Calm w
    → any (λ c. c.id == id) w.candidates ≡ true
    → (replace_sources id sources w).0
      ≡ (if apart w.outside (dedupe_candidate_sources id sources) then ok tt else err duplicate_key)
unfolding replace_sources transaction begin call
replace_sources_succeeds id sources w q k =
    let xs = dedupe_candidate_sources id sources in
    let v : World = record w {
      calls = suc (suc w.calls);
      candidate_sources = keep (λ s. not (of_candidate id s)) w.candidate_sources;
    } in
    rw (q w.calls) (
      rw (q (suc w.calls)) (
        end_transaction-Calm (w.candidate_sources, w.score_details) (insert_sources id xs v)
          (λ n. subst (λ o. o.fault n ≡ none) (sym ((insert_sources-Keeps id xs).kept v)) (q n))
        ∙ insert_sources-verdict id xs v q k
        ∙ rw (free-deleted w.outside id w.candidate_sources xs) refl))
