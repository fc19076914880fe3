-- ===== src/Discovery/Keywords/Table.antt =====
-- What leaves the table of the candidates as it was.
use Prim.Native.String.{String}
use fetch_bilibili.Prelude.{ℕ, refl, arith, Option, none, some, List, [], ◌∷◌}
use fetch_bilibili.Repo.Models.{
  CandidateCreator, CandidateCreatorSource, CandidateCreatorScoreDetail,
}
use fetch_bilibili.Repo.Candidates.{found, as_not_found, find_by_id, find_by_platform_uid}
use fetch_bilibili.Repo.CandidateDetails.{
  Tables, begin, committed, end_transaction, transaction, delete_sources, insert_source,
  insert_sources, replace_sources, delete_details, insert_detail, insert_details,
  replace_score_details, dedupe_candidate_sources,
}
use fetch_bilibili.Discovery.Keywords.Run.{known, look_up}
use fetch_bilibili.World.{Result, ok, err, World, M, attempt}
use fetch_bilibili.Effects.{Keeps, Keeps-return, Keeps-bind, Keeps-attempt, IsStore, Keeps-call}

abbrev pub table : World → List CandidateCreator
table w = w.candidates

pub table-IsStore : IsStore table
table-IsStore = record {
  no_calls = λ w n. refl;
  no_snapshot = λ w s. refl;
  no_events = λ w es. refl;
  no_global = λ w l. refl;
  no_limiters = λ w ls. refl;
}

found-Keeps : (o : Option CandidateCreator) → Keeps table (found o)
found-Keeps none = record { kept = λ w. refl }
found-Keeps (some c) = record { kept = λ w. refl }

as_not_found-Keeps : (r : Result CandidateCreator) → Keeps table (as_not_found r)
as_not_found-Keeps r = record { kept = λ w. ground arith }

known-Keeps : (r : Result CandidateCreator) → Keeps table (known r)
known-Keeps r = record { kept = λ w. ground arith }

ask-Keeps : (o : World → Option CandidateCreator) → Keeps table (λ w. found (o w) w)
ask-Keeps o = record { kept = λ w. (found-Keeps (o w)).kept w }

pub find_by_id-Keeps : (id : ℕ) → Keeps table (find_by_id id)
unfolding find_by_id
find_by_id-Keeps id =
    Keeps-bind table _ as_not_found
      (Keeps-attempt table _ (Keeps-call table-IsStore _ (ask-Keeps _))) as_not_found-Keeps

pub look_up-Keeps :
    (uid : String) (o : Option (Option CandidateCreator)) → Keeps table (look_up uid o)
unfolding find_by_platform_uid
look_up-Keeps uid (some c) = Keeps-return table c
look_up-Keeps uid none =
    Keeps-bind table _ known
      (Keeps-attempt table _ (
        Keeps-bind table _ as_not_found
          (Keeps-attempt table _ (Keeps-call table-IsStore _ (ask-Keeps _))) as_not_found-Keeps))
      known-Keeps

end_transaction-Keeps :
    (before : Tables) (r : Result (Unit {0})) → Keeps table (end_transaction before r)
end_transaction-Keeps before (err e) = record { kept = λ w. refl }
end_transaction-Keeps before (ok u) =
    Keeps-bind table _ (committed before)
      (Keeps-attempt table _ (Keeps-call table-IsStore _ (Keeps-return table tt))) answered
  where
    answered : (r : Result (Unit {0})) → Keeps table (committed before r)
    answered (ok v) = record { kept = λ w. refl }
    answered (err e) = record { kept = λ w. refl }

transaction-Keeps : (m : M (Unit {0})) → Keeps table m → Keeps table (transaction m)
unfolding transaction begin
transaction-Keeps m h =
    Keeps-bind table begin _
      (Keeps-call table-IsStore (λ w. (ok (w.candidate_sources, w.score_details), w))
        (record { kept = λ w. refl }))
      (λ before.
        Keeps-bind table (attempt m) _ (Keeps-attempt table _ h) (end_transaction-Keeps before))

insert_sources-Keeps :
    (id : ℕ) (xs : List CandidateCreatorSource) → Keeps table (insert_sources id xs)
unfolding insert_sources
insert_sources-Keeps id [] = Keeps-return table tt
insert_sources-Keeps id (s ∷ xs) =
    Keeps-bind table _ _
      (Keeps-call table-IsStore (insert_source id s) (record { kept = λ w. ground arith }))
      (λ _. insert_sources-Keeps id xs)

pub replace_sources-Keeps :
    (id : ℕ) (xs : List CandidateCreatorSource) → Keeps table (replace_sources id xs)
unfolding replace_sources
replace_sources-Keeps id xs = transaction-Keeps _ (
    Keeps-bind table _ _
      (Keeps-call table-IsStore (delete_sources id) (record { kept = λ w. refl }))
      (λ _. insert_sources-Keeps id (dedupe_candidate_sources id xs)))

insert_details-Keeps :
    (id : ℕ) (ds : List CandidateCreatorScoreDetail) → Keeps table (insert_details id ds)
unfolding insert_details
insert_details-Keeps id [] = Keeps-return table tt
insert_details-Keeps id (d ∷ ds) =
    Keeps-bind table _ _
      (Keeps-call table-IsStore (insert_detail id d) (record { kept = λ w. ground arith }))
      (λ _. insert_details-Keeps id ds)

pub replace_score_details-Keeps :
    (id : ℕ) (ds : List CandidateCreatorScoreDetail) → Keeps table (replace_score_details id ds)
unfolding replace_score_details
replace_score_details-Keeps id ds = transaction-Keeps _ (
    Keeps-bind table _ _
      (Keeps-call table-IsStore (delete_details id) (record { kept = λ w. refl }))
      (λ _. insert_details-Keeps id ds))
