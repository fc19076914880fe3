-- ===== src/Discovery/Service.antt =====
-- internal/discovery/service.go. The writer of the creators is the creator service, and the enqueuer
-- the job service; each of them, and the repository, may not be there.
use fetch_bilibili.Prelude.{ℕ, Bool, true, false, not, ◌&&◌, ◌||◌, List, [], ◌∷◌, if◌then◌else◌}
use fetch_bilibili.Prelude.Int.{pos}
use fetch_bilibili.Repo.Models.{
  Creator, CandidateCreator, CandidateCreatorSource, CandidateCreatorScoreDetail, CandidateStatus,
  reviewing, approved, ignored, blocked,
}
use fetch_bilibili.Repo.Candidates.{
  same_status, find_by_id, update_review_status, CandidateListFilter, list,
}
use fetch_bilibili.Repo.CandidateDetails.{list_sources, list_score_details}
use fetch_bilibili.Creator.Service as Creators
use fetch_bilibili.Creator.Service.{upsert_creator, of_entry}
use fetch_bilibili.Jobs.Service as Jobs
use fetch_bilibili.Jobs.Service.{enqueue_fetch_creator}
use fetch_bilibili.World.{
  Error, not_initialized, bad_transition, Result, World, M, ◌>>=◌, ◌>>◌, return, throw, now,
}
pub mod Transitions

pub record Service : Type 0 where
  pub has_candidates : Bool
  pub has_creators : Bool
  pub has_fetcher : Bool
  pub auto_enqueue_fetch_on_approve : Bool
  pub creators : Creators.Service
  pub fetcher : Jobs.Service

pub record CandidateView : Type 0 where
  pub candidate : CandidateCreator
  pub sources : List CandidateCreatorSource

pub record CandidateDetailView : Type 0 where
  pub candidate : CandidateCreator
  pub sources : List CandidateCreatorSource
  pub score_details : List CandidateCreatorScoreDetail

unfoldable pub views : List CandidateCreator → M (List CandidateView)
unfolding list_sources
views [] = return []
views (c ∷ rest) = do
  sources ← list_sources c.id
  more ← views rest
  return (record { candidate = c; sources = sources } ∷ more)

unfoldable pub list_candidates : Service → CandidateListFilter → M (List CandidateView × ℕ)
unfolding list views
list_candidates s filter =
    if not s.has_candidates
    then throw not_initialized
    else (do r ← list filter; vs ← views r.0; return (vs, r.1))

unfoldable pub get_candidate : Service → ℕ → M CandidateDetailView
unfolding find_by_id list_sources list_score_details
get_candidate s id = if not s.has_candidates then throw not_initialized else (do
  candidate ← find_by_id id
  sources ← list_sources id
  details ← list_score_details id
  return (record { candidate = candidate; sources = sources; score_details = details }))

-- The creator that a candidate becomes.
abbrev pub creator_of : CandidateCreator → Creator
creator_of c = record (of_entry c.platform c.uid c.name "active") {
  follower_count = c.follower_count;
}

-- What follows the first approval.
abbrev pub settle : Service → ℕ → Creator → M (Unit {0})
settle s id creator = do
  at ← now
  update_review_status id (reviewing ∷ []) approved at
  (if s.auto_enqueue_fetch_on_approve && s.has_fetcher
      then enqueue_fetch_creator s.fetcher creator.id
      else return tt)

abbrev pub approve_found : Service → ℕ → CandidateCreator → M Creator
approve_found s id c =
    if not (same_status c.status approved) && not (same_status c.status reviewing)
    then throw bad_transition
    else (do
      creator ← upsert_creator s.creators (creator_of c)
      (if same_status c.status approved then return tt else settle s id creator)
      return creator)

unfoldable pub approve : Service → ℕ → M Creator
unfolding find_by_id upsert_creator update_review_status enqueue_fetch_creator
approve s id =
    if not s.has_candidates || not s.has_creators
    then throw not_initialized
    else (find_by_id id >>= approve_found s id)

unfoldable pub review_status : Service → ℕ → List CandidateStatus → CandidateStatus → M (Unit {0})
unfolding update_review_status
review_status s id from to =
    if not s.has_candidates
    then throw not_initialized
    else (now >>= λ at. update_review_status id from to at)

unfoldable pub ignore : Service → ℕ → M (Unit {0})
unfolding review_status
ignore s id = review_status s id (reviewing ∷ []) ignored

unfoldable pub block : Service → ℕ → M (Unit {0})
unfolding review_status
block s id = review_status s id (reviewing ∷ []) blocked

unfoldable pub review : Service → ℕ → M (Unit {0})
unfolding review_status
review s id = review_status s id (ignored ∷ []) reviewing
