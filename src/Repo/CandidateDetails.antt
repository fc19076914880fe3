-- ===== src/Repo/CandidateDetails.antt =====
-- internal/repo/mysql/candidate_repo.go over the tables candidate_creator_sources and
-- candidate_creator_score_details. The map of dedupeCandidateSources and the order of its keys are one list.
use Prim.Native.String.{String, ◌++◌ as str_append}
use Prim.Native.Char.{nul}
use package.text.Mathlib.Text.{◌==◌ as str_eq}
use fetch_bilibili.Prelude.{
  ℕ, suc, ltb, ◌==◌, Bool, true, false, not, ◌&&◌, ◌||◌, Option, none, some, List, [], ◌∷◌, ◌++◌,
  keep, any, map, if◌then◌else◌,
}
use fetch_bilibili.Prelude.Int.{ℤ, eqb_ℤ, ltb_ℤ}
use fetch_bilibili.Prelude.Sort.{sort_by}
use fetch_bilibili.Repo.Models.{CandidateCreatorSource, CandidateCreatorScoreDetail}
use fetch_bilibili.World.{
  Error, no_parent, duplicate_key, Result, ok, err, World, M, next, ◌>>=◌, ◌>>◌, return, throw,
  call, attempt,
}
pub mod Dedupe
pub mod Replaced
pub mod Answered

abbrev pub source_key : CandidateCreatorSource → String
source_key s = str_append s.source_type (str_append (String.◌∷◌ nul String.[]) s.source_value)

abbrev pub same_key : String → CandidateCreatorSource → Bool
same_key key s = str_eq (source_key s) key

-- items[key] = source, with the key at the end of the order if it is not there.
abbrev pub put : CandidateCreatorSource → List CandidateCreatorSource → List CandidateCreatorSource
put s [] = s ∷ []
put s (t ∷ rest) =
    let later = put s rest in if same_key (source_key s) t then s ∷ rest else t ∷ later

unfoldable pub dedupe_into :
    ℕ → List CandidateCreatorSource → List CandidateCreatorSource → List CandidateCreatorSource
dedupe_into id items [] = items
dedupe_into id items (s ∷ rest) =
    dedupe_into id (put (record s { candidate_creator_id = id }) items) rest

unfoldable pub dedupe_candidate_sources :
    ℕ → List CandidateCreatorSource → List CandidateCreatorSource
unfolding dedupe_into
dedupe_candidate_sources id sources = dedupe_into id [] sources

-- The two tables as BeginTx finds them, to which a rollback goes back.
abbrev pub Tables : Type 0
Tables = List CandidateCreatorSource × List CandidateCreatorScoreDetail

unfoldable pub begin : M Tables
unfolding call
begin = call (λ w. (ok (w.candidate_sources, w.score_details), w))

-- The deferred Rollback, whose own failure is dropped: the database then gives the transaction up.
abbrev pub roll_back : Tables → Error → M (Unit {0})
roll_back before e w = (
  err e,
  record w { calls = suc w.calls; candidate_sources = before.0; score_details = before.1 },
)

-- A Commit that fails has written nothing, and no Rollback follows it.
abbrev pub committed : Tables → Result (Unit {0}) → M (Unit {0})
committed before (ok _) w = (ok tt, w)
committed before (err e) w =
    (err e, record w { candidate_sources = before.0; score_details = before.1 })

abbrev pub end_transaction : Tables → Result (Unit {0}) → M (Unit {0})
end_transaction before (ok _) = attempt (call (return tt)) >>= committed before
end_transaction before (err e) = roll_back before e

unfoldable pub transaction : M (Unit {0}) → M (Unit {0})
unfolding call begin
transaction body = do before ← begin; done ← attempt body; end_transaction before done

abbrev pub delete_sources : ℕ → M (Unit {0})
delete_sources id w = (
  ok tt,
  record w {
    candidate_sources = keep (λ s. not (s.candidate_creator_id == id)) w.candidate_sources;
  },
)

abbrev pub source_row : ℕ → ℕ → ℕ → CandidateCreatorSource → CandidateCreatorSource
source_row n id now s = record s { id = n; candidate_creator_id = id; created_at = now }

-- The unique key (candidate_creator_id, source_type, source_value), with the texts compared as the
-- collation does, and the foreign key.
abbrev pub insert_source : ℕ → CandidateCreatorSource → M (Unit {0})
insert_source id s w =
    if any
      (λ t.
        t.candidate_creator_id == id
        && w.outside.same_text t.source_type s.source_type
        && w.outside.same_text t.source_value s.source_value)
      w.candidate_sources
    then throw duplicate_key w
    else if not (any (λ c. c.id == id) w.candidates)
    then throw no_parent w
    else (
      ok tt,
      record w {
        candidate_sources =
            w.candidate_sources ++ source_row w.next_source_id id (w.outside.clock w.calls) s ∷ [];
        next_source_id = suc w.next_source_id;
      },
    )

unfoldable pub insert_sources : ℕ → List CandidateCreatorSource → M (Unit {0})
unfolding call
insert_sources id [] = return tt
insert_sources id (s ∷ rest) = do call (insert_source id s); insert_sources id rest

unfoldable pub replace_sources : ℕ → List CandidateCreatorSource → M (Unit {0})
unfolding transaction call insert_sources dedupe_candidate_sources
replace_sources id sources =
    transaction
      (do call (delete_sources id); insert_sources id (dedupe_candidate_sources id sources))

-- ORDER BY weight DESC, id ASC.
abbrev heavier : CandidateCreatorSource → CandidateCreatorSource → Bool
heavier a b = if eqb_ℤ a.weight b.weight then ltb a.id b.id else ltb_ℤ b.weight a.weight

unfoldable pub list_sources : ℕ → M (List CandidateCreatorSource)
unfolding call
list_sources id =
    call (λ w.
      (ok (sort_by heavier (keep (λ s. s.candidate_creator_id == id) w.candidate_sources)), w))

unfoldable pub list_score_details : ℕ → M (List CandidateCreatorScoreDetail)
unfolding call
list_score_details id = call (λ w. (
  ok (sort_by (λ a b. ltb a.id b.id) (keep (λ d. d.candidate_creator_id == id) w.score_details)),
  w,
))

abbrev pub delete_details : ℕ → M (Unit {0})
delete_details id w = (
  ok tt,
  record w { score_details = keep (λ d. not (d.candidate_creator_id == id)) w.score_details },
)

abbrev pub insert_detail : ℕ → CandidateCreatorScoreDetail → M (Unit {0})
insert_detail id d w = if not (any (λ c. c.id == id) w.candidates) then throw no_parent w else (
  ok tt,
  record w {
    score_details =
        w.score_details
        ++ record d {
          id = w.next_detail_id;
          candidate_creator_id = id;
          created_at = w.outside.clock w.calls;
        }
          ∷ [];
    next_detail_id = suc w.next_detail_id;
  },
)

unfoldable pub insert_details : ℕ → List CandidateCreatorScoreDetail → M (Unit {0})
unfolding call
insert_details id [] = return tt
insert_details id (d ∷ rest) = do call (insert_detail id d); insert_details id rest

unfoldable pub replace_score_details : ℕ → List CandidateCreatorScoreDetail → M (Unit {0})
unfolding transaction call insert_details
replace_score_details id details =
    transaction (do call (delete_details id); insert_details id details)
