-- ===== src/Discovery/Service/Transitions.antt =====
-- How reviews change the status of a candidate.
use package.text.Mathlib.Text.{◌==◌ as str_eq}
use mathlib.Core.Path.{subst}
use fetch_bilibili.Prelude.{
  ℕ, ltb, ◌==◌, ◌≡◌, refl, ◌∙◌, sym, ap, arith, Bool, true, false, not, ◌&&◌, ◌||◌, Option, none,
  some, List, [], ◌∷◌, first, any, change, if◌then◌else◌, ◌⊎◌, inl, inr, Bool-cases,
}
use fetch_bilibili.Repo.Models.{
  Creator, Job, fetch, CandidateCreator, CandidateStatus, unset, reviewing, approved, ignored,
  blocked,
}
use fetch_bilibili.Prelude.Int.{pos}
use fetch_bilibili.Repo.Payload.{int64}
use fetch_bilibili.Repo.Creators as Rows
use fetch_bilibili.Repo.Creators.{or_default}
use fetch_bilibili.Repo.Candidates.{
  same_status, find_by_id, found, reviewed, as_not_found, is_source, update_rows, current_status,
  refused, update_review_status,
}
use fetch_bilibili.Creator.Service as Creators
use fetch_bilibili.Creator.Service.{upsert_creator, save, named, or_written}
use fetch_bilibili.Creator.Service.Asking.{
  trim-Preserves, named-Preserves, publish-Preserves, find_by_id-Preserves,
}
use fetch_bilibili.Jobs.Enqueue.{is_active, accepts_type, has_active_job, enqueue, insert_row}
use fetch_bilibili.Jobs.Service as Jobs
use fetch_bilibili.Jobs.Service.{
  publish_job_changed, announced, enqueue_job, enqueue_fetch_creator, created, job_of,
}
use fetch_bilibili.World.{
  not_initialized, no_uid_or_name, job_already_active, bad_transition, not_found, no_rows, Result,
  ok, err, World, M, job_changed, now,
}
use fetch_bilibili.Triples.{
  Ends, Triple, Triple-bind, Triple-return, Triple-throw, Triple-call, Triple-if, Triple-weaken,
}
use fetch_bilibili.Invariants.{
  Preserves, IsAboutTables, Preserves-return, Preserves-throw, Preserves-bind, Preserves-if,
  Preserves-attempt, Preserves-call, Preserves-now, Preserves-publish, Triple-preserves,
}
use fetch_bilibili.Discovery.Service.{
  Service, creator_of, settle, approve_found, approve, review_status, ignore, block, review,
}

-- Writing a creator or a job leaves the candidates alone.
module _ (R : List CandidateCreator → Type 0) where
  abbrev Q : World → Type 0
  Q w = R w.candidates

  about : IsAboutTables Q
  about = record { no_calls = λ w n p. p; no_events = λ w es p. p }

  upsert_row-Q : (c : Creator) → Preserves Q (Rows.upsert_row c)
  upsert_row-Q c = record { holds = λ w p. after w p }
    where
      found_one : (o : Option Creator) (w : World) → Q w → Q (Rows.upsert_found c o w).1
      found_one none w p = p
      found_one (some d) w p = p

      after : (w : World) → Q w → Q (Rows.upsert_row c w).1
      after w p = elim (Bool-cases (Rows.accepts c)) [
        | inl e ↦ rw e (found_one (first (Rows.has_key c.platform c.uid) w.creators) w p)
        | inr e ↦ rw e p
      ]

  save-Q : (s : Creators.Service) (c : Creator) → Preserves Q (save s c)
  unfolding save Rows.upsert
  save-Q s c =
      Preserves-bind Q _ _
        (Preserves-bind Q _ _ (Preserves-call about _ (upsert_row-Q (Rows.with_defaults c)))
          λ id. Preserves-call about _ (Preserves-return Q id))
        λ id. Preserves-bind Q _ _ (Preserves-attempt Q _ (find_by_id-Preserves about id)) λ r.
          Preserves-bind Q _ _ (publish-Preserves about s (or_written (record c { id = id }) r))
            λ u. Preserves-return Q (or_written (record c { id = id }) r)

  upsert_creator-Q : (s : Creators.Service) (c : Creator) → Preserves Q (upsert_creator s c)
  unfolding upsert_creator
  upsert_creator-Q s c = Preserves-bind Q _ _ (trim-Preserves about c.uid) λ uid.
      Preserves-if Q (str_eq uid "") _ _ (Preserves-throw Q no_uid_or_name) (
        Preserves-bind Q _ _ (trim-Preserves about c.platform) λ platform.
          Preserves-bind Q _ _ (trim-Preserves about c.status) λ status.
            Preserves-bind Q _ _
              (named-Preserves about s (record c {
                platform = if str_eq platform "" then "bilibili" else c.platform;
                status = if str_eq status "" then "active" else c.status;
              }))
              λ c'. save-Q s c')

  insert_row-Q : (job : Job) → Preserves Q (insert_row job)
  insert_row-Q job = record { holds = λ w p. after w p }
    where
      after : (w : World) → Q w → Q (insert_row job w).1
      after w p = elim (Bool-cases (accepts_type job.type)) [ inl e ↦ rw e p | inr e ↦ rw e p ]

  enqueue-Q : (job : Job) → Preserves Q (enqueue job)
  unfolding enqueue has_active_job
  enqueue-Q job =
      Preserves-bind Q _ _
        (Preserves-if Q (is_active job.status) _ _
          (Preserves-call about _ (record { holds = λ w p. p })) (Preserves-return Q false))
        λ b. Preserves-if Q b _ _ (Preserves-throw Q job_already_active) (
          Preserves-bind Q _ _ (Preserves-call about _ (insert_row-Q job))
            λ id. Preserves-call about _ (Preserves-return Q id))

  announced-Q : (s : Jobs.Service) (job : Job) (r : Result ℕ) → Preserves Q (announced s job r)
  unfolding publish_job_changed
  announced-Q s job (ok id) = Preserves-bind Q _ _ (Preserves-now about) λ at.
      Preserves-if Q (not s.has_publisher) _ _ (Preserves-return Q tt) (
        Preserves-bind Q _ _ (Preserves-now about) λ at'. Preserves-publish about (
          job_changed
            (if (created id at job).updated_at == 0 then at' else (created id at job).updated_at)
            (created id at job)))
  announced-Q s job (err job_already_active) = Preserves-return Q tt
  announced-Q s job (err e) = Preserves-throw Q e

  enqueue_job-Q : (s : Jobs.Service) (job : Job) → Preserves Q (enqueue_job s job)
  unfolding enqueue_job
  enqueue_job-Q s job =
      Preserves-bind Q _ _ (Preserves-attempt Q _ (enqueue-Q job)) λ r. announced-Q s job r

  enqueue_fetch_creator-Q : (s : Jobs.Service) (id : ℕ) → Preserves Q (enqueue_fetch_creator s id)
  unfolding enqueue_fetch_creator
  enqueue_fetch_creator-Q s id =
      enqueue_job-Q s (job_of fetch (("creator_id", int64 (pos id)) ∷ []))

  find_by_id-Q : (id : ℕ) → Preserves Q (find_by_id id)
  unfolding find_by_id
  find_by_id-Q id =
      Preserves-bind Q _ _
        (Preserves-attempt Q _ (
          Preserves-call about _
            (record { holds = λ w p. same (first (λ c. c.id == id) w.candidates) w p })))
        passed
    where
      same : (o : Option CandidateCreator) (w : World) → Q w → Q (found o w).1
      same none w p = p
      same (some c) w p = p

      passed : (r : Result CandidateCreator) → Preserves Q (as_not_found r)
      passed (ok c) = Preserves-return Q c
      passed (err no_rows) = Preserves-throw Q not_found
      passed (err e) = Preserves-throw Q e

abbrev pub status_in : Option CandidateCreator → Option CandidateStatus
status_in none = none
status_in (some c) = some c.status

abbrev pub status_of : ℕ → List CandidateCreator → Option CandidateStatus
status_of id cs = status_in (first (λ c. c.id == id) cs)

-- As before, or the new one from the right one.
abbrev Moved :
    CandidateStatus → CandidateStatus → ℕ → CandidateStatus → List CandidateCreator → Type 0
Moved from to n t cs =
    (status_of n cs ≡ some t) ⊎ ((status_of n cs ≡ some to) × (same_status t from ≡ true))

reviewed-status :
    (to : CandidateStatus) (at now : ℕ) (c : CandidateCreator) → (reviewed to at now c).status ≡ to
reviewed-status to at now c = ground arith

reviewed-id :
    (to : CandidateStatus) (at now : ℕ) (c : CandidateCreator) → (reviewed to at now c).id ≡ c.id
reviewed-id to at now c = ground arith

status_of-change :
    (id : ℕ) (from to : CandidateStatus) (f : CandidateCreator → CandidateCreator) (n : ℕ)
    (t : CandidateStatus) (cs : List CandidateCreator)
    → ((c : CandidateCreator) → (f c).id ≡ c.id)
    → ((c : CandidateCreator) → (f c).status ≡ to)
    → status_of n cs ≡ some t
    → Moved from to n t (change (is_source id (from ∷ [])) f cs)
status_of-change id from to f n t [] i g e = inl e
status_of-change id from to f n t (c ∷ rest) i g e =
    ground (arith, status_of-change id from to f n t rest i g, i c, g c)

module _ (id : ℕ) (from to : CandidateStatus) (n : ℕ) (t : CandidateStatus) where
  abbrev Is : World → Type 0
  Is w = status_of n w.candidates ≡ some t

  abbrev After : World → Type 0
  After w = Moved from to n t w.candidates

  update_review_status-After :
      (at : ℕ) → Triple Is (update_review_status id (from ∷ []) to at) (λ u. After) After
  unfolding update_review_status
  update_review_status-After at =
      Triple-bind (λ k. After)
        (Triple-call (update_rows id (from ∷ []) to at) (record { run = updated })
          (λ w e. (e, inl e)))
        λ k. Triple-preserves After (
          Preserves-bind After _ _
            (Preserves-call (about (Moved from to n t)) _ (Preserves-return After k))
            λ affected. Preserves-if After (ltb 0 affected) _ _ (Preserves-return After tt) (
              Preserves-bind After _ _
                (Preserves-attempt After _ (
                  Preserves-call (about (Moved from to n t)) _
                    (record { holds = λ w a. same (first (λ c. c.id == id) w.candidates) w a })))
                told))
    where
      updated : (w : World) → Is w → Ends (λ k. After) After (update_rows id (from ∷ []) to at w)
      updated w e =
          elim (Bool-cases (same_status to unset && any (is_source id (from ∷ [])) w.candidates)) [
            | inl b ↦ rw b (inl e)
            | inr b ↦ rw b (
                status_of-change id from to (reviewed to at (w.outside.clock w.calls)) n t
                  w.candidates (reviewed-id to at (w.outside.clock w.calls))
                  (reviewed-status to at (w.outside.clock w.calls)) e)
          ]

      same : (o : Option CandidateCreator) (w : World) → After w → After (current_status o w).1
      same none w a = a
      same (some c) w a = a

      told : (r : Result CandidateStatus) → Preserves After (refused r)
      told (ok s) = Preserves-throw After bad_transition
      told (err no_rows) = Preserves-throw After not_found
      told (err e) = Preserves-throw After e

-- The changes of status that a review may make.
pub data Step : CandidateStatus → CandidateStatus → Type 0 where
  approves : Step reviewing approved
  ignores : Step reviewing ignored
  blocks : Step reviewing blocked
  reopens : Step ignored reviewing

pub data Action : Type 0 where
  approve_it ignore_it block_it review_it : ℕ → Action

-- The request that a user makes, whatever comes of it.
unfoldable pub act : Service → Action → World → World
unfolding approve ignore block review
act s (approve_it id) w = (approve s id w).1
act s (ignore_it id) w = (ignore s id w).1
act s (block_it id) w = (block s id w).1
act s (review_it id) w = (review s id w).1

abbrev Stepped : ℕ → CandidateStatus → List CandidateCreator → Type 0
Stepped n t cs = (u : CandidateStatus) × (status_of n cs ≡ some u) × ((u ≡ t) ⊎ Step t u)

stays :
    (n : ℕ) (t : CandidateStatus) (cs : List CandidateCreator)
    → status_of n cs ≡ some t
    → Stepped n t cs
stays n t cs e = (t, e, inl refl)

same_status-eq : (a b : CandidateStatus) → same_status a b ≡ true → a ≡ b
same_status-eq a b e = ground arith

moved :
    (from to : CandidateStatus) (n : ℕ) (t : CandidateStatus) (cs : List CandidateCreator)
    → Step from to
    → Moved from to n t cs
    → Stepped n t cs
moved from to n t cs p (inl e) = stays n t cs e
moved from to n t cs p (inr (e, f)) =
    (to, e, inr (subst (λ x. Step x to) (sym (same_status-eq t from f)) p))

module _ (n : ℕ) (t : CandidateStatus) where
  abbrev Before : World → Type 0
  Before w = status_of n w.candidates ≡ some t

  abbrev Then : World → Type 0
  Then w = Stepped n t w.candidates

  update_review_status-Then :
      (id : ℕ) (from to : CandidateStatus) (at : ℕ)
      → Step from to
      → Triple Before (update_review_status id (from ∷ []) to at) (λ u. Then) Then
  update_review_status-Then id from to at p =
      Triple-weaken (update_review_status-After id from to n t at) (λ w e. e)
        (λ u w m. moved from to n t w.candidates p m) (λ w m. moved from to n t w.candidates p m)

  review_status-Then :
      (s : Service) (id : ℕ) (from to : CandidateStatus)
      → Step from to
      → Triple Before (review_status s id (from ∷ []) to) (λ u. Then) Then
  unfolding review_status now
  review_status-Then s id from to p =
      Triple-if (not s.has_candidates)
        (Triple-throw not_initialized (λ w e. stays n t w.candidates e))
        (Triple-bind (λ at. Before) {m = now} (record { run = λ w e. e })
          λ at. update_review_status-Then id from to at p)

  Before-stays : (w : World) → Before w → Then w
  Before-stays w e = stays n t w.candidates e

  settle-Then :
      (s : Service) (id : ℕ) (c : Creator) → Triple Before (settle s id c) (λ u. Then) Then
  unfolding now
  settle-Then s id c =
      Triple-bind (λ at. Before) {m = now} (record { run = λ w e. e })
        λ at.
          Triple-bind (λ u. Then) (update_review_status-Then id reviewing approved at Step.approves)
            λ u.
              Triple-if (s.auto_enqueue_fetch_on_approve && s.has_fetcher)
                (Triple-preserves Then (enqueue_fetch_creator-Q (Stepped n t) s.fetcher c.id))
                (Triple-return tt (λ w p. p))

  approve_found-Then :
      (s : Service) (id : ℕ) (c : CandidateCreator)
      → Triple Before (approve_found s id c) (λ u. Then) Then
  approve_found-Then s id c =
      Triple-if (not (same_status c.status approved) && not (same_status c.status reviewing))
        (Triple-throw bad_transition Before-stays)
        (Triple-bind (λ u. Before)
          (Triple-weaken
            (Triple-preserves Before
              (upsert_creator-Q (λ cs. status_of n cs ≡ some t) s.creators (creator_of c)))
            (λ w e. e) (λ u w e. e) Before-stays)
          λ creator.
            Triple-bind (λ u. Then)
              (Triple-if (same_status c.status approved) (Triple-return tt Before-stays)
                (settle-Then s id creator))
              λ u. Triple-return creator (λ w p. p))

  approve-Then : (s : Service) (id : ℕ) → Triple Before (approve s id) (λ u. Then) Then
  unfolding approve
  approve-Then s id =
      Triple-if (not s.has_candidates || not s.has_creators)
        (Triple-throw not_initialized Before-stays)
        (Triple-bind (λ u. Before)
          (Triple-weaken (Triple-preserves Before (find_by_id-Q (λ cs. status_of n cs ≡ some t) id))
            (λ w e. e) (λ u w e. e) Before-stays)
          (approve_found-Then s id))

after :
    {A : Type 0} (P : World → Type 0) {R : World → Type 0} {m : M A}
    → Triple R m (λ u. P) P
    → (w : World) → R w
    → P (m w).1
after {A} P {m = m} t w r = ends (m w) (t.run w r)
  where
    ends : (x : Result A × World) → Ends (λ u. P) P x → P x.1
    ends (ok a, v) p = p
    ends (err e, v) p = p

-- Whatever a user asks for and whatever fails, a candidate keeps its status or makes one of the four
-- steps: a candidate under review is approved, ignored or blocked, and an ignored one is reviewed again.
pub review_steps :
    (s : Service) (a : Action) (n : ℕ) (t : CandidateStatus) (w : World)
    → status_of n w.candidates ≡ some t
    → (u : CandidateStatus) × (status_of n (act s a w).candidates ≡ some u) × ((u ≡ t) ⊎ Step t u)
unfolding act ignore block review
review_steps s (approve_it id) n t w e = after (Then n t) (approve-Then n t s id) w e
review_steps s (ignore_it id) n t w e =
    after (Then n t) (review_status-Then n t s id reviewing ignored Step.ignores) w e
review_steps s (block_it id) n t w e =
    after (Then n t) (review_status-Then n t s id reviewing blocked Step.blocks) w e
review_steps s (review_it id) n t w e =
    after (Then n t) (review_status-Then n t s id ignored reviewing Step.reopens) w e

unfoldable pub run : Service → List Action → World → World
run s [] w = w
run s (a ∷ rest) w = run s rest (act s a w)

abbrev pub is_final : CandidateStatus → Bool
is_final approved = true
is_final blocked = true
is_final _ = false

final-Step : (t u : CandidateStatus) → is_final t ≡ true → Step t u → u ≡ t
final-Step _ _ f Step.approves = absurd (ground (arith, f))
final-Step _ _ f Step.ignores = absurd (ground (arith, f))
final-Step _ _ f Step.blocks = absurd (ground (arith, f))
final-Step _ _ f Step.reopens = absurd (ground (arith, f))

final-cases : (t u : CandidateStatus) → is_final t ≡ true → (u ≡ t) ⊎ Step t u → u ≡ t
final-cases t u f (inl e) = e
final-cases t u f (inr p) = final-Step t u f p

-- However many requests follow, an approved candidate stays approved and a blocked one blocked.
pub final_status_stays :
    (s : Service) (actions : List Action) (n : ℕ) (t : CandidateStatus) (w : World)
    → is_final t ≡ true
    → status_of n w.candidates ≡ some t
    → status_of n (run s actions w).candidates ≡ some t
unfolding run
final_status_stays s [] n t w f e = e
final_status_stays s (a ∷ rest) n t w f e =
    let r = review_steps s a n t w e in
    final_status_stays s rest n t (act s a w) f (r.1 ∙ ap some (final-cases t r.0 f r.2))
