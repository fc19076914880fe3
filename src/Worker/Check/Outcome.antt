-- ===== src/Worker/Check/Outcome.antt =====
-- The states of the videos after handleCheck.
use package.text.Mathlib.Text.{◌==◌ as str_eq}
use fetch_bilibili.Prelude.{
  ltb, take, ℕ, suc, ◌≡◌, refl, arith, Bool, true, false, not, ◌||◌, ◌&&◌, ◌==◌, sym, ap, Option,
  none, some, List, [], ◌∷◌, inl, every, every-take, every-perm, keep, ◌∙◌,
}
use fetch_bilibili.Prelude.Int.{ℤ}
use fetch_bilibili.Prelude.Sort.{sort_by, sort_by-perm}
use fetch_bilibili.World.{Result, ok, err, Outside, World, now, not_initialized}
use fetch_bilibili.Triples.{
  Ends, Triple, Triple-bind, Triple-return, Triple-throw, Triple-call, Triple-if,
}
use fetch_bilibili.Repo.Payload.{Payload, payload_int64}
use fetch_bilibili.Repo.Models.{VideoState, Video}
use fetch_bilibili.Repo.Videos.{
  same_state, find_video, find_by_id, list_for_check, limit_or, checkable, found,
}
use fetch_bilibili.Repo.Videos.States.{state_of}
use fetch_bilibili.Worker.Handler.{Handler}
use fetch_bilibili.Worker.Download.{positive}
use fetch_bilibili.Worker.Check.{check_listed, to_check, handle_check}
use fetch_bilibili.Worker.Check.States.{
  MayBe, agrees, fits, same_state-eq, Shown, Checked, check_each-Checked,
}

-- The payload names the video.
abbrev pub names : Option ℕ → ℕ → Bool
names none id = false
names (some n) id = n == id

module _ (h : Handler) (v : Video) (o : Outside) (target : Option ℕ) where
  abbrev is_named : Bool
  is_named = names target v.id

  -- All rows with the video's id are like it, and there is one.
  abbrev IsStart : World → Type 0
  IsStart w =
      (w.outside ≡ o)
      × (every (agrees h o is_named v) w.videos ≡ true)
      × (state_of v.id w.videos ≡ some v.state)

  abbrev Now : World → Type 0
  Now w = Checked h o is_named v w

  abbrev Listed : List Video → World → Type 0
  Listed us w = (every (fits h o is_named v) us ≡ true) × Now w

  IsStart-Checked : (w : World) → IsStart w → Now w
  IsStart-Checked w (i, a, e) = (i, v.state, e, inl refl)

  next_call :
      (w : World)
      → IsStart w
      → IsStart (record w { calls = suc w.calls }) × Now (record w { calls = suc w.calls })
  next_call w r = (r, IsStart-Checked w r)

  abbrev before : Video → Video → Bool
  before a b = ltb a.last_check_at b.last_check_at

  abbrev checkables : World → List Video
  checkables w = keep (λ u. checkable u.state) w.videos

  keep-fits :
      (us : List Video)
      → every (agrees h o is_named v) us ≡ true
      → every (fits h o is_named v) (keep (λ u. checkable u.state) us) ≡ true
  keep-fits [] a = refl
  keep-fits (u ∷ us) a =
      ground (arith, a, keep-fits us, same_state-eq h o is_named v u.state v.state)

  list_for_check-Listed : (limit : ℤ) → Triple IsStart (list_for_check limit) Listed Now
  unfolding list_for_check
  list_for_check-Listed limit =
      Triple-call _ (record { run = λ w r. (taken w r, IsStart-Checked w r) }) next_call
    where
      taken :
          (w : World)
          → IsStart w
          → every (fits h o is_named v) (take (limit_or 50 limit) (sort_by before (checkables w)))
            ≡ true
      taken w (i, a, e) =
          every-take (fits h o is_named v) (limit_or 50 limit) (sort_by before (checkables w)) (
            every-perm (fits h o is_named v) (sort_by-perm before (checkables w))
            ∙ keep-fits w.videos a)

  find_video-fits :
      (n : ℕ) (us : List Video) (u : Video)
      → target ≡ some n
      → find_video n us ≡ some u
      → every (agrees h o is_named v) us ≡ true
      → every (fits h o is_named v) (u ∷ []) ≡ true
  find_video-fits n [] u t e a = cc
  find_video-fits n (x ∷ rest) u t e a = ground (arith, t, find_video-fits n rest u t)

  found-Listed :
      (r : Option Video) (w : World)
      → ((u : Video) → r ≡ some u → every (fits h o is_named v) (u ∷ []) ≡ true)
      → IsStart w
      → Ends (λ u. Listed (u ∷ [])) Now (found r w)
  found-Listed none w f r = IsStart-Checked w r
  found-Listed (some u) w f r = (f u refl, IsStart-Checked w r)

  find_by_id-Listed :
      (n : ℕ) → target ≡ some n → Triple IsStart (find_by_id n) (λ u. Listed (u ∷ [])) Now
  unfolding find_by_id
  find_by_id-Listed n t =
      Triple-call (λ w. found (find_video n w.videos) w)
        (record {
          run = λ w r.
              found-Listed (find_video n w.videos) w (λ u e. find_video-fits n w.videos u t e r.1)
                r;
        })
        next_call

  to_check-Listed : (n : Option ℕ) → target ≡ n → Triple IsStart (to_check h n) Listed Now
  to_check-Listed none t = list_for_check-Listed h.check_limit
  to_check-Listed (some n) t =
      Triple-bind (λ u. Listed (u ∷ [])) (find_by_id-Listed n t)
        λ u. Triple-return (u ∷ []) (λ w l. l)

  now-Shown : Triple Now now (λ at w. Now w × Shown h o is_named v at) Now
  unfolding now
  now-Shown = record { run = λ w c. (c, (w.calls, ap (λ p. p.clock w.calls) c.0)) }

  check_listed-Checked : (us : List Video) → Triple (Listed us) (check_listed h us) (λ _. Now) Now
  check_listed-Checked [] = Triple-return tt (λ w l. l.1)
  check_listed-Checked (u ∷ rest) = record {
    run = λ w l.
        (Triple-bind (λ at w. Now w × Shown h o is_named v at) now-Shown
            (λ at. record {
              run = λ x c. (check_each-Checked h o is_named v at none (u ∷ rest) c.1 l.0).run x c.0;
            })).run
          w l.1;
  }

  to_check-run :
      (payload : Payload)
      → positive (payload_int64 o.parse_int payload "video_id") ≡ target
      → Triple IsStart
          (λ w. to_check h (positive (payload_int64 w.outside.parse_int payload "video_id")) w)
          Listed
          Now
  to_check-run payload t = record {
    run = λ w r.
        (to_check-Listed (positive (payload_int64 w.outside.parse_int payload "video_id")) (
            sym t
            ∙ ap (λ p. positive (payload_int64 p.parse_int payload "video_id")) (sym r.0))).run
          w r;
  }

  handle_check-Checked :
      (payload : Payload)
      → positive (payload_int64 o.parse_int payload "video_id") ≡ target
      → Triple IsStart (handle_check h payload) (λ _. Now) Now
  unfolding handle_check
  handle_check-Checked payload t =
      Triple-if (not h.has_videos || not h.has_client)
        (Triple-throw not_initialized IsStart-Checked)
        (Triple-bind Listed (to_check-run payload t) λ us. check_listed-Checked us)

  ends-Checked : (r : Result (Unit {0}) × World) → Ends (λ _. Now) Now r → Now r.1
  ends-Checked (ok _, w) c = c
  ends-Checked (err e, w) c = c

-- All rows with the video's id have its state, its id on the platform and its time of publication,
-- and there is one.
abbrev pub IsRow : Video → World → Type 0
IsRow v w =
    (every
        (λ u.
          not (u.id == v.id)
          || same_state u.state v.state
            && str_eq u.video_id v.video_id
            && u.publish_time == v.publish_time)
        w.videos
      ≡ true)
    × (state_of v.id w.videos ≡ some v.state)

-- handleCheck leaves the row of a video, whichever of its calls fail. Its state is as it was, or the
-- video was asked for by the job or was in a state that is checked, and then: it is OUT_OF_PRINT, and
-- the platform has answered that this video is not there; or it is STABLE, the platform has answered
-- that it is there, and it was published before the cutoff at a time that the clock showed.
pub handle_check_states :
    (h : Handler) (payload : Payload) (v : Video) (w : World)
    → IsRow v w
    → (t : VideoState) × (state_of v.id (handle_check h payload w).1.videos ≡ some t)
      × MayBe h w.outside
          (names (positive (payload_int64 w.outside.parse_int payload "video_id")) v.id)
          v
          t
handle_check_states h payload v w r =
    let target = positive (payload_int64 w.outside.parse_int payload "video_id") in
    let c =
      ends-Checked h v w.outside target (handle_check h payload w)
        ((handle_check-Checked h v w.outside target payload refl).run w (refl, r.0, r.1)) in
    (c.1, c.2, c.3)
