-- ===== src/App/Recovery/States.antt =====
-- How the recovery changes the state of a video.
use Prim.Native.String.{String}
use fetch_bilibili.Prelude.{
  ℕ, ltb, ◌==◌, ◌≡◌, refl, ◌∙◌, ap, arith, Bool, true, not, ◌&&◌, ◌||◌, Option, none, some, List,
  [], ◌∷◌, keep, member, every, every-perm, every-take, Bool-cases, inl, inr,
}
use fetch_bilibili.Prelude.Int.{pos}
use fetch_bilibili.Prelude.Sort.{sort_by-perm}
use fetch_bilibili.Repo.Models.{Job, VideoState, new, downloading, downloaded, Video}
use fetch_bilibili.Repo.Videos.{
  update_videos, set_column, column_accepts, is_some, find_video, same_state, update_state,
}
use fetch_bilibili.Repo.VideoFiles.{delete_files_by_video_id}
use fetch_bilibili.Repo.Listing.{of_creator, in_state, recent_order}
use fetch_bilibili.Repo.Listing as Videos
use fetch_bilibili.Jobs.Enqueue as Jobs
use fetch_bilibili.Jobs.Enqueue.{write_status}
use fetch_bilibili.Worker.Deletion.{find_file, size_of, stat_size}
use fetch_bilibili.World.{not_exist, Result, ok, err, World, attempt}
use fetch_bilibili.Triples.{Triple, Triple-bind, Triple-call}
use fetch_bilibili.Invariants.{
  Preserves, IsAboutTables, Preserves-return, Preserves-throw, Preserves-bind, Preserves-if,
  Preserves-call, Triple-preserves, Preserves-of,
}
use fetch_bilibili.App.Recovery.{
  App, requeue_each, requeue_running_jobs, of_state, list_downloads, next_state, recover_each,
  recover_listed, recover_downloading_videos, video_path, forget, repair, repair_each,
  recover_missing_downloaded_videos, recover_runtime_state,
}

same_state-eq : (a b : VideoState) → same_state a b ≡ true → a ≡ b
same_state-eq a b e = ground arith

module _ (id : ℕ) (p : VideoState → Bool) where
  -- A row with the id has a state that passes the test.
  abbrev in_set : Video → Bool
  in_set v = not (v.id == id) || p v.state

  abbrev R : World → Type 0
  R w = every in_set w.videos ≡ true

  about : IsAboutTables R
  about = record { no_calls = λ w n g. g; no_events = λ w es g. g }

  update-in_set :
      (n : ℕ) (x : VideoState) (at : ℕ) (vs : List Video)
      → ((n == id) ≡ true → p x ≡ true)
      → every in_set vs ≡ true
      → every in_set (update_videos n (λ v. record v { state = x; updated_at = at }) vs) ≡ true
  update-in_set n x at [] h e = refl
  update-in_set n x at (v ∷ vs) h e = ground (arith, update-in_set n x at vs h, h)

  update_state-R :
      (n : ℕ) (x : VideoState) → ((n == id) ≡ true → p x ≡ true) → Preserves R (update_state n x)
  unfolding update_state
  update_state-R n x h = Preserves-call about _ (record { holds = after })
    where
      after :
          (w : World)
          → R w
          → R
              (set_column n x
                (λ w v. record v { state = x; updated_at = w.outside.clock w.calls })
                w).1
      after w g = elim (Bool-cases (not (column_accepts x) && is_some (find_video n w.videos))) [
        | inl e ↦ rw e g
        | inr e ↦ rw e (update-in_set n x (w.outside.clock w.calls) w.videos h g)
      ]

  stat_size-R : (path : World → String) → Preserves R (attempt (λ w. stat_size (path w) w))
  unfolding stat_size
  stat_size-R path = record {
    holds = λ w g.
        (Preserves-call about _
            (record { holds = λ v k. same (find_file (path w) v.disk) v k })).holds
          w g;
  }
    where
      same : (o : Option ℕ) (v : World) → R v → R (size_of o v).1
      same none v k = k
      same (some n) v k = k

  -- A listed video has the id only if its state is in the set.
  abbrev guarded : Bool → Video → Bool
  guarded q v = not (v.id == id) || q

  keep-guarded :
      (s : VideoState) (vs : List Video)
      → every in_set vs ≡ true
      → every (guarded (p s)) (keep (λ v. of_creator (pos 0) v && in_state (some s) v) vs) ≡ true
  keep-guarded s [] g = refl
  keep-guarded s (v ∷ vs) g = ground (
    arith,
    keep-guarded s vs,
    λ (e : same_state v.state s ≡ true). ap p (same_state-eq v.state s e),
  )

  of_state-guarded :
      (s : VideoState) → Triple R (of_state s) (λ vs w. (every (guarded (p s)) vs ≡ true) × R w) R
  unfolding Videos.list_recent
  of_state-guarded s =
      Triple-call _
        (record {
          run = λ w g. (
            every-take (guarded (p s)) 500 _ (
                every-perm (guarded (p s)) (
                  sort_by-perm (recent_order (some s))
                    (keep (λ v. of_creator (pos 0) v && in_state (some s) v) w.videos))
                ∙ keep-guarded s w.videos g),
            g,
          );
        })
        (λ w g. (g, g))

  requeue_each-R : (js : List Job) → Preserves R (requeue_each js)
  unfolding requeue_each write_status
  requeue_each-R [] = Preserves-return R tt
  requeue_each-R (j ∷ js) =
      Preserves-bind R _ _ (Preserves-call about _ (record { holds = λ w g. g }))
        λ u. requeue_each-R js

  requeue_running_jobs-R : (a : App) → Preserves R (requeue_running_jobs a)
  unfolding requeue_running_jobs Jobs.list_recent
  requeue_running_jobs-R a =
      Preserves-if R (not a.has_jobs) _ _ (Preserves-return R tt)
        (Preserves-bind R _ _ (Preserves-call about _ (record { holds = λ w g. g })) requeue_each-R)

  -- A lost video becomes new, where that is allowed for the id.
  forget-R : (a : App) (v : Video) → ((v.id == id) ≡ true → p new ≡ true) → Preserves R (forget a v)
  unfolding delete_files_by_video_id
  forget-R a v h =
      Preserves-bind R _ _
        (Preserves-if R a.has_video_files _ _
          (Preserves-bind R _ _
            (Preserves-bind R _ _ (Preserves-call about _ (record { holds = λ w g. g }))
              λ n. Preserves-call about _ (Preserves-return R n))
            λ n. Preserves-return R tt)
          (Preserves-return R tt))
        λ u. update_state-R v.id new h

  repair-R :
      (a : App) (v : Video) (r : Result ℕ)
      → ((v.id == id) ≡ true → p new ≡ true)
      → Preserves R (repair a v r)
  repair-R a v (ok size) h =
      Preserves-if R (ltb 0 size) _ _ (Preserves-return R tt) (forget-R a v h)
  repair-R a v (err not_exist) h = forget-R a v h
  repair-R a v (err e) h = Preserves-throw R e

  repair_each-R :
      (a : App) (q : Bool) (vs : List Video)
      → (q ≡ true → p new ≡ true)
      → every (guarded q) vs ≡ true
      → Preserves R (repair_each a vs)
  unfolding repair_each
  repair_each-R a q [] h g = Preserves-return R tt
  repair_each-R a q (v ∷ vs) h g = Preserves-bind R _ _ (stat_size-R (video_path a v)) λ r.
      Preserves-bind R _ _ (repair-R a v r (λ e. h (ground (arith, g, e))))
        λ u. repair_each-R a q vs h (ground (arith, g))

  recover_each-R :
      (a : App) (active : List ℕ) (q : Bool) (vs : List Video)
      → (q ≡ true → p new ≡ true)
      → (q ≡ true → p downloaded ≡ true)
      → every (guarded q) vs ≡ true
      → Preserves R (recover_each a active vs)
  unfolding recover_each
  recover_each-R a active q [] h k g = Preserves-return R tt
  recover_each-R a active q (v ∷ vs) h k g =
      Preserves-bind R _ _
        (Preserves-if R (member v.id active) _ _ (Preserves-return R tt) (
          Preserves-bind R _ _ (stat_size-R (video_path a v))
            λ r. update_state-R v.id (next_state r) (λ e. chosen r (ground (arith, g, e)))))
        λ u. recover_each-R a active q vs h k (ground (arith, g))
    where
      chosen : (r : Result ℕ) → q ≡ true → p (next_state r) ≡ true
      chosen (ok n) e = ground (arith, h e, k e)
      chosen (err x) e = h e

  list_downloads-R : (a : App) → Preserves R (list_downloads a)
  unfolding Jobs.list_recent
  list_downloads-R a = Preserves-if R (not a.has_jobs) _ _ (Preserves-return R []) (
      Preserves-bind R _ _ (Preserves-call about _ (record { holds = λ w g. g }))
        λ js. record { holds = λ w g. g })

  recover_listed-R :
      (a : App) (q : Bool) (vs : List Video)
      → (q ≡ true → p new ≡ true)
      → (q ≡ true → p downloaded ≡ true)
      → every (guarded q) vs ≡ true
      → Preserves R (recover_listed a vs)
  recover_listed-R a q [] h k g = Preserves-return R tt
  recover_listed-R a q (v ∷ vs) h k g =
      Preserves-bind R _ _ (list_downloads-R a) λ active. recover_each-R a active q (v ∷ vs) h k g

  -- The two phases, each for a set that is closed under its changes.
  missing-R :
      (a : App)
      → (p downloaded ≡ true → p new ≡ true)
      → Preserves R (recover_missing_downloaded_videos a)
  unfolding recover_missing_downloaded_videos
  missing-R a h = Preserves-if R (not a.has_videos) _ _ (Preserves-return R tt) (
      Preserves-of R (
        Triple-bind (λ vs w. (every (guarded (p downloaded)) vs ≡ true) × R w)
          (of_state-guarded downloaded)
          λ vs. record {
            run = λ w g. (Triple-preserves R (repair_each-R a (p downloaded) vs h g.0)).run w g.1;
          }))

  downloading-R :
      (a : App)
      → (p downloading ≡ true → p new ≡ true)
      → (p downloading ≡ true → p downloaded ≡ true)
      → Preserves R (recover_downloading_videos a)
  unfolding recover_downloading_videos
  downloading-R a h k = Preserves-if R (not a.has_videos) _ _ (Preserves-return R tt) (
      Preserves-of R (
        Triple-bind (λ vs w. (every (guarded (p downloading)) vs ≡ true) × R w)
          (of_state-guarded downloading)
          λ vs. record {
            run = λ w g.
                (Triple-preserves R (recover_listed-R a (p downloading) vs h k g.0)).run w g.1;
          }))

  recover-R :
      (a : App)
      → (p downloaded ≡ true → p new ≡ true)
      → (p downloading ≡ true → p new ≡ true)
      → (p downloading ≡ true → p downloaded ≡ true)
      → Preserves R (recover_runtime_state a)
  unfolding recover_runtime_state
  recover-R a h k l =
      Preserves-bind R _ _ (requeue_running_jobs-R a)
        λ u. Preserves-bind R _ _ (missing-R a h) λ v. downloading-R a k l

-- What the recovery may make of a state.
abbrev pub may_become : VideoState → VideoState → Bool
may_become downloading t = same_state t downloading || same_state t downloaded || same_state t new
may_become downloaded t = same_state t downloaded || same_state t new
may_become s t = same_state t s

weaken :
    (id : ℕ) (p q : VideoState → Bool) (vs : List Video)
    → ((s : VideoState) → p s ≡ true → q s ≡ true)
    → every (in_set id p) vs ≡ true
    → every (in_set id q) vs ≡ true
weaken id p q [] h e = refl
weaken id p q (v ∷ vs) h e = ground (arith, weaken id p q vs h, h v.state)

-- Whatever fails, the recovery gives a video another state only if it was downloading, which becomes
-- new or downloaded, or downloaded, which becomes new.
pub recovery_states :
    (a : App) (id : ℕ) (s : VideoState) (w : World)
    → every (λ v. not (v.id == id) || same_state v.state s) w.videos ≡ true
    → every (λ v. not (v.id == id) || may_become s v.state) (recover_runtime_state a w).1.videos
      ≡ true
recovery_states a id s w e =
    (recover-R id (may_become s) a (ground arith) (ground arith) (ground arith)).holds w
      (weaken id (λ t. same_state t s) (may_become s) w.videos (λ t. ground arith) e)
