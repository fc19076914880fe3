-- ===== src/Worker/Fetch/Queues.antt =====
-- What handleFetch does to the videos' states, and for which videos it queues downloads.
use fetch_bilibili.Prelude.{
  ℕ, suc, ◌≤◌, ltb, ◌==◌, ◌≡◌, refl, ◌∙◌, ap, arith, Bool, true, false, not, ◌&&◌, ◌||◌, Option,
  none, some, List, [], ◌∷◌, ◌++◌, first, any, change, every, every-append, if◌then◌else◌,
  Bool-cases, inl, inr,
}
use fetch_bilibili.Prelude.Int.{pos}
use fetch_bilibili.Repo.Models.{VideoState, new, Video, VideoMeta, Creator, Job, download}
use fetch_bilibili.Repo.Payload.{Payload, Value, int64, lookup, payload_int64}
use fetch_bilibili.Repo.Creators as Creators
use fetch_bilibili.Repo.Creators.{list_active}
use fetch_bilibili.Repo.Videos as Videos
use fetch_bilibili.Repo.Videos.{same_state, find_video}
use fetch_bilibili.Repo.Videos.States.{state_in, state_of}
use fetch_bilibili.Repo.Listing.{
  has_key, accepts, with_platform, inserted, merged, upsert_found, upsert_row, upsert, created,
}
use fetch_bilibili.Jobs.Table.{new_row, insert_job}
use fetch_bilibili.Jobs.Enqueue.{same_type, insert_row, has_active_job, enqueue}
use fetch_bilibili.World.{
  Error, job_already_active, not_initialized, Result, ok, err, World, next, ◌>>=◌, return, throw,
  call,
}
use fetch_bilibili.Effects.{IsStore}
use fetch_bilibili.Triples.{
  Triple, Ends, Triple-bind, Triple-return, Triple-throw, Triple-call, Triple-attempt, Triple-keeps,
}
use fetch_bilibili.Invariants.{
  Preserves, IsAboutTables, Preserves-return, Preserves-throw, Preserves-bind, Preserves-if,
  Preserves-attempt, Preserves-call, Preserves-ask, Triple-preserves, Preserves-of,
}
use fetch_bilibili.Worker.Handler.{Handler}
use fetch_bilibili.Worker.Waiting.{wait_for_creator, wait_for_creator-Keeps}
use fetch_bilibili.Worker.Download.{positive}
use fetch_bilibili.Worker.Check.{latest, report}
use fetch_bilibili.Worker.Fetch.{
  list_videos, video_of, download_job, queued, queue_download, if_new, saved, fetch_video,
  fetch_videos, listed, fetch_creators, to_fetch, handle_fetch,
}

abbrev is_new : Option VideoState → Bool
is_new none = false
is_new (some s) = same_state s new

abbrev new_video : List Video → Option Value → Bool
new_video vs (some (int64 (pos n))) = is_new (state_of n vs)
new_video vs _ = false

-- A job of before, or the download of a video that is new.
abbrev pub justified : ℕ → List Video → Job → Bool
justified before vs j =
    ltb j.id before || (same_type j.type download && new_video vs (lookup "video_id" j.payload))

-- The part of the world that counts here.
record Tables : Type 0 where
  videos : List Video
  next_video_id : ℕ
  jobs : List Job
  next_job_id : ℕ

abbrev tables : World → Tables
tables w = record {
  videos = w.videos;
  next_video_id = w.next_video_id;
  jobs = w.jobs;
  next_job_id = w.next_job_id;
}

tables-IsStore : IsStore tables
tables-IsStore = record {
  no_calls = λ w n. refl;
  no_snapshot = λ w s. refl;
  no_events = λ w es. refl;
  no_global = λ w l. refl;
  no_limiters = λ w ls. refl;
}

abbrev is_old : ℕ → Video → Bool
is_old next v = ltb v.id next

-- A row that is added behind the others, or changed without its id and state.
state_of-merged :
    (id : ℕ) (p : Video → Bool) (at : ℕ) (v : Video) (vs : List Video)
    → state_of id (change p (merged at v) vs) ≡ state_of id vs
state_of-merged id p at v [] = refl
state_of-merged id p at v (x ∷ rest) = ground (arith, state_of-merged id p at v rest)

state_of-append :
    (id : ℕ) (s : VideoState) (vs : List Video) (v : Video)
    → state_of id vs ≡ some s
    → state_of id (vs ++ v ∷ []) ≡ some s
state_of-append id s [] v e = cc
state_of-append id s (x ∷ rest) v e = ground (arith, state_of-append id s rest v)

state_of-last :
    (next : ℕ) (vs : List Video) (v : Video)
    → every (is_old next) vs ≡ true
    → v.id ≡ next
    → state_of next (vs ++ v ∷ []) ≡ some v.state
state_of-last next [] v o e = ground (arith, e)
state_of-last next (x ∷ rest) v o e = ground (arith, state_of-last next rest v)

every-merged :
    (next : ℕ) (p : Video → Bool) (at : ℕ) (v : Video) (vs : List Video)
    → every (is_old next) (change p (merged at v) vs) ≡ every (is_old next) vs
every-merged next p at v [] = refl
every-merged next p at v (x ∷ rest) = ground (arith, every-merged next p at v rest)

every-old :
    (a b : ℕ) (vs : List Video) → a ≤ b → every (is_old a) vs ≡ true → every (is_old b) vs ≡ true
every-old a b [] l e = refl
every-old a b (x ∷ rest) l e = ground (arith, every-old a b rest)

is_new-state : (o : Option VideoState) → is_new o ≡ true → o ≡ some new
is_new-state o e = ground (arith, e)

new_video-grows :
    (vs vs' : List Video) (v : Option Value)
    → ((id : ℕ) → state_of id vs ≡ some new → state_of id vs' ≡ some new)
    → new_video vs v ≡ true
    → new_video vs' v ≡ true
new_video-grows vs vs' none g e = e
new_video-grows vs vs' (some (int64 (pos n))) g e = ap is_new (g n (is_new-state (state_of n vs) e))
new_video-grows vs vs' (some v) g e = absurd (ground (arith, e))

-- A state that stays new keeps the jobs justified.
justified-grows :
    (before : ℕ) (vs vs' : List Video) (js : List Job)
    → ((id : ℕ) → state_of id vs ≡ some new → state_of id vs' ≡ some new)
    → every (justified before vs) js ≡ true
    → every (justified before vs') js ≡ true
justified-grows before vs vs' [] g e = refl
justified-grows before vs vs' (j ∷ rest) g e = ground (
  arith,
  justified-grows before vs vs' rest g,
  new_video-grows vs vs' (lookup "video_id" j.payload) g,
)

insert-justified :
    (before id n now : ℕ) (vs : List Video) (js : List Job)
    → state_of n vs ≡ some new
    → every (justified before vs) js ≡ true
    → every (justified before vs) (insert_job id now (download_job n) js) ≡ true
unfolding insert_job
insert-justified before id n now vs js e q =
    every-append (justified before vs) js (new_row id now (download_job n) ∷ [])
    ∙ ground (arith, q, ap is_new e)

-- From the world where the fetch starts: the states stay, and new jobs are justified.
record IsFetching (start : World) (t : Tables) : Type 0 where
  fresh : every (is_old t.next_video_id) t.videos ≡ true
  states :
      (id : ℕ) (s : VideoState) → state_of id start.videos ≡ some s → state_of id t.videos ≡ some s
  queue : every (justified start.next_job_id t.videos) t.jobs ≡ true

module _ (start : World) where
  abbrev I : World → Type 0
  I w = IsFetching start (tables w)

  about : IsAboutTables I
  about = record { no_calls = λ w n g. g; no_events = λ w es g. g }

  abbrev Fresh : ℕ × Bool → World → Type 0
  Fresh r w = I w × (r.1 ≡ true → state_of r.0 w.videos ≡ some new)

  changed :
      (w : World) (p : Video → Bool) (at : ℕ) (v : Video)
      → I w
      → I (record w { videos = change p (merged at v) w.videos })
  changed w p at v g = record {
    fresh = every-merged w.next_video_id p at v w.videos ∙ g.fresh;
    states = λ id s e. state_of-merged id p at v w.videos ∙ g.states id s e;
    queue =
        justified-grows start.next_job_id w.videos (change p (merged at v) w.videos) w.jobs
          (λ id e. state_of-merged id p at v w.videos ∙ e) g.queue;
  }

  added :
      (w : World) (v : Video)
      → v.id ≡ w.next_video_id
      → I w
      → I (record w { videos = w.videos ++ v ∷ []; next_video_id = suc w.next_video_id })
  added w v i g = record {
    fresh =
        every-append (is_old (suc w.next_video_id)) w.videos (v ∷ [])
        ∙ ground (
          arith,
          every-old w.next_video_id (suc w.next_video_id) w.videos (omega arith) g.fresh,
          i,
        );
    states = λ id s e. state_of-append id s w.videos v (g.states id s e);
    queue =
        justified-grows start.next_job_id w.videos (w.videos ++ v ∷ []) w.jobs
          (λ id e. state_of-append id new w.videos v e) g.queue;
  }

  upsert_row-Fresh : (v : Video) → v.state ≡ new → Triple I (upsert_row v) Fresh I
  upsert_row-Fresh v e = record { run = λ w g. after w g }
    where
      row : World → Video
      row w = inserted w.next_video_id (w.outside.clock w.calls) v

      found : (o : Option Video) (w : World) → I w → Ends Fresh I (upsert_found v o w)
      found (some old) w g = (
        changed w (has_key v.platform v.video_id) (w.outside.clock w.calls) v g,
        λ c. absurd (ground (arith, c)),
      )
      found none w g = elim (Bool-cases (any (λ c. c.id == v.creator_id) w.creators)) [
        | inl q ↦ rw q (
          added w (row w) refl g,
          λ c. state_of-last w.next_video_id w.videos (row w) g.fresh refl ∙ ap some e,
        )
        | inr q ↦ rw q g
      ]

      after : (w : World) → I w → Ends Fresh I (upsert_row v w)
      after w g = elim (Bool-cases (accepts v)) [
        | inl q ↦ rw q (found (first (has_key v.platform v.video_id) w.videos) w g)
        | inr q ↦ rw q g
      ]

  upsert-Fresh : (v : Video) → v.state ≡ new → Triple I (upsert v) Fresh I
  unfolding upsert
  upsert-Fresh v e =
      Triple-bind Fresh
        (Triple-call (upsert_row (with_platform v)) (upsert_row-Fresh (with_platform v) e)
          (λ w g. (g, g)))
        λ row.
          Triple-bind (λ id w. Fresh (id, row.1) w)
            (Triple-call (return row.0) (Triple-return row.0 (λ w g. g)) (λ w g. (g, g.0)))
            λ id.
              Triple-bind (λ r w. Ends (λ b. Fresh (id, b)) (λ w. Fresh (id, false) w) (r, w))
                (Triple-attempt (
                  Triple-call (return row.1) (Triple-return row.1 (λ w g. g))
                    (λ w g. (g, (g.0, λ c. absurd (ground (arith, c)))))))
                (last id)
    where
      last :
          (id : ℕ) (r : Result Bool)
          → Triple
              (λ w. Ends (λ b. Fresh (id, b)) (λ w. Fresh (id, false) w) (r, w))
              (return (id, created r))
              Fresh
              I
      last id (ok b) = Triple-return (id, b) (λ w g. g)
      last id (err x) = Triple-return (id, false) (λ w g. g)

  -- A download is queued for a video that is new.
  enqueue-New :
      (id : ℕ)
      → Triple (λ w. I w × (state_of id w.videos ≡ some new)) (enqueue (download_job id)) (λ n. I) I
  unfolding enqueue has_active_job
  enqueue-New id =
      Triple-bind (λ b w. I w × (state_of id w.videos ≡ some new))
        (Triple-call _ (record { run = λ w g. g }) (λ w g. (g, g.0)))
        λ b.
          elim b
            as (λ b.
              Triple (λ w. I w × (state_of id w.videos ≡ some new))
                (if b
                  then throw job_already_active
                  else (do n ← call (insert_row (download_job id)); call (return n)))
                (λ n. I) I) [
                  | true ↦ Triple-throw job_already_active (λ w g. g.0)
                  | false ↦
                      Triple-bind (λ n. I)
                        (Triple-call (insert_row (download_job id))
                          (record { run = λ w g. appended w g.0 g.1 }) (λ w g. (g, g.0)))
                        λ n.
                          Triple-preserves I
                            (Preserves-call about (return n) (Preserves-return I n))
                ]
    where
      appended :
          (w : World) → I w → state_of id w.videos ≡ some new → I (insert_row (download_job id) w).1
      appended w g e = record {
        fresh = g.fresh;
        states = g.states;
        queue =
            insert-justified start.next_job_id w.next_job_id id (w.outside.clock w.calls) w.videos
              w.jobs e g.queue;
      }

  queue_download-New :
      (h : Handler) (id : ℕ)
      → Triple (λ w. I w × (state_of id w.videos ≡ some new)) (queue_download h id) (λ e. I) I
  queue_download-New h id = elim (Bool-cases (not h.has_jobs)) [
    | inl e ↦ rw e (Triple-return none (λ w g. g.0))
    | inr e ↦
        rw e
          (Triple-bind (λ r w. Ends (λ n. I) I (r, w)) (Triple-attempt (enqueue-New id)) report_of)
  ]
    where
      report_of :
          (r : Result ℕ) → Triple (λ w. Ends (λ n. I) I (r, w)) (return (queued r)) (λ e. I) I
      report_of (ok n) = Triple-return none (λ w g. g)
      report_of (err x) = Triple-return (queued (err x)) (λ w g. g)

  -- The row that was read has this state.
  abbrev Read : ℕ → Result Video → World → Type 0
  Read id r w = Ends (λ v w. I w × (state_of id w.videos ≡ some v.state)) I (r, w)

  if_new-Read :
      (h : Handler) (id : ℕ) (r : Result Video) → Triple (Read id r) (if_new h id r) (λ e. I) I
  if_new-Read h id (err x) = Triple-return (some x) (λ w g. g)
  if_new-Read h id (ok v) = elim (Bool-cases (same_state v.state new)) [
    | inl e ↦ rw e (record {
      run = λ w g. (queue_download-New h id).run w (g.0, g.1 ∙ is_new-state (some v.state) e);
    })
    | inr e ↦ rw e (Triple-return none (λ w g. g.0))
  ]

  find_by_id-Read :
      (id : ℕ)
      → Triple I (Videos.find_by_id id) (λ v w. I w × (state_of id w.videos ≡ some v.state)) I
  unfolding Videos.find_by_id
  find_by_id-Read id =
      Triple-call _ (record { run = λ w g. read (find_video id w.videos) w refl g }) (λ w g. (g, g))
    where
      read :
          (o : Option Video) (w : World)
          → find_video id w.videos ≡ o
          → I w
          → Ends (λ v w. I w × (state_of id w.videos ≡ some v.state)) I (Videos.found o w)
      read none w e g = g
      read (some v) w e g = (g, ap state_in e)

  saved-Fresh :
      (h : Handler) (r : Result (ℕ × Bool))
      → Triple (λ w. Ends Fresh I (r, w)) (saved h r) (λ e. I) I
  saved-Fresh h (err x) = Triple-return (some x) (λ w g. g)
  saved-Fresh h (ok (id, true)) = record {
    run = λ w g. (queue_download-New h id).run w (g.0, g.1 refl);
  }
  saved-Fresh h (ok (id, false)) = record {
    run = λ w g.
        (Triple-bind (Read id) (Triple-attempt (find_by_id-Read id)) (if_new-Read h id)).run w g.0;
  }

  fetch_video-I : (h : Handler) (c : Creator) (m : VideoMeta) → Preserves I (fetch_video h c m)
  unfolding fetch_video
  fetch_video-I h c m = Preserves-of I (
      Triple-bind (λ r w. Ends Fresh I (r, w)) (Triple-attempt (upsert-Fresh (video_of c m) refl))
        (saved-Fresh h))

  fetch_videos-I :
      (h : Handler) (c : Creator) (last : Option Error) (ms : List VideoMeta)
      → Preserves I (fetch_videos h c last ms)
  unfolding fetch_videos
  fetch_videos-I h c last [] = Preserves-return I last
  fetch_videos-I h c last (m ∷ rest) =
      Preserves-bind I _ _ (fetch_video-I h c m) λ e. fetch_videos-I h c (latest last e) rest

  report-I : (e : Option Error) → Preserves I (report e)
  report-I none = Preserves-return I tt
  report-I (some x) = Preserves-throw I x

  waits : (h : Handler) (id : ℕ) → Preserves I (wait_for_creator h id)
  waits h id =
      Preserves-of I
        (Triple-keeps tables (IsFetching start) (wait_for_creator-Keeps tables-IsStore h id))

  listed-I :
      (h : Handler) (c : Creator) (last : Option Error) (r : Result (List VideoMeta))
      → Preserves I (listed h c last r)
  listed-I h c last (err x) = Preserves-return I (some x)
  listed-I h c last (ok ms) = fetch_videos-I h c last ms

  fetch_creators-I :
      (h : Handler) (last : Option Error) (cs : List Creator)
      → Preserves I (fetch_creators h last cs)
  unfolding fetch_creators list_videos
  fetch_creators-I h last [] = report-I last
  fetch_creators-I h last (c ∷ rest) = Preserves-bind I _ _ (waits h c.id) λ u.
      Preserves-bind I _ _ (Preserves-attempt I _ (record { holds = λ w g. g }))
        λ r. Preserves-bind I _ _ (listed-I h c last r) λ last'. fetch_creators-I h last' rest

  to_fetch-I : (h : Handler) (o : Option ℕ) → Preserves I (to_fetch h o)
  unfolding Creators.find_by_id list_active
  to_fetch-I h none = Preserves-ask about _
  to_fetch-I h (some id) =
      Preserves-bind I _ _
        (Preserves-call about _
          (record { holds = λ w g. same (first (λ c. c.id == id) w.creators) w g }))
        λ c. Preserves-return I (c ∷ [])
    where
      same : (o : Option Creator) (w : World) → I w → I (Creators.found o w).1
      same none w g = g
      same (some c) w g = g

  handle_fetch-I : (h : Handler) (payload : Payload) → Preserves I (handle_fetch h payload)
  unfolding handle_fetch
  handle_fetch-I h payload =
      Preserves-if I (not h.has_creators || not h.has_videos || not h.has_client) _ _
        (Preserves-throw I not_initialized)
        (Preserves-bind I
          (λ w. to_fetch h (positive (payload_int64 w.outside.parse_int payload "creator_id")) w) _
          (record {
            holds = λ w.
                (to_fetch-I h
                    (positive (payload_int64 w.outside.parse_int payload "creator_id"))).holds
                  w;
          })
          (fetch_creators-I h none))

-- The rows were numbered in turn.
pub record IsNumbered (w : World) : Type 0 where
  pub videos_old : every (λ v. ltb v.id w.next_video_id) w.videos ≡ true
  pub jobs_old : every (λ j. ltb j.id w.next_job_id) w.jobs ≡ true

old-justified :
    (n : ℕ) (vs : List Video) (js : List Job)
    → every (λ j. ltb j.id n) js ≡ true
    → every (justified n vs) js ≡ true
old-justified n vs [] e = refl
old-justified n vs (j ∷ rest) e = ground (arith, old-justified n vs rest)

start-I : (w : World) → IsNumbered w → IsFetching w (tables w)
start-I w n = record {
  fresh = n.videos_old;
  states = λ id s e. e;
  queue = old-justified w.next_job_id w.videos w.jobs n.jobs_old;
}

-- A fetch changes the state of no video that is there, whatever fails on the way.
pub fetch_keeps_states :
    (h : Handler) (payload : Payload) (w : World) (id : ℕ) (s : VideoState)
    → IsNumbered w
    → state_of id w.videos ≡ some s
    → state_of id (handle_fetch h payload w).1.videos ≡ some s
fetch_keeps_states h payload w id s n e =
    ((handle_fetch-I w h payload).holds w (start-I w n)).states id s e

-- Every job that a fetch adds is the download of a video that is new when the fetch ends, whatever
-- fails on the way.
pub fetch_queues_new :
    (h : Handler) (payload : Payload) (w : World)
    → IsNumbered w
    → every
        (justified w.next_job_id (handle_fetch h payload w).1.videos)
        (handle_fetch h payload w).1.jobs
      ≡ true
fetch_queues_new h payload w n = ((handle_fetch-I w h payload).holds w (start-I w n)).queue
