-- ===== src/Worker/Check/States.antt =====
-- What a check may do to the state of a video.
use Prim.Native.String.{String}
use package.text.Mathlib.Text.{◌==◌ as str_eq}
use package.text.Mathlib.TextEquality.{eq_iff}
use mathlib.Core.Path.{subst}
use fetch_bilibili.Prelude.{
  ℕ, suc, ◌<◌, ◌≡◌, refl, ◌∙◌, sym, ap, Bool-cases, arith, Bool, true, false, not, ◌&&◌, ◌||◌, ◌==◌,
  Option, none, some, List, [], ◌∷◌, if◌then◌else◌, ◌⊎◌, inl, inr, every,
}
use fetch_bilibili.Prelude.Int.{ℤ, pos, ltb_ℤ}
use fetch_bilibili.World.{Error, Result, ok, err, Outside, World, M, call, attempt}
use fetch_bilibili.Effects.{Keeps, Keeps-return, Keeps-if, IsStore}
use fetch_bilibili.Triples.{Triple, Triple-bind, Triple-return, Triple-throw, Triple-keeps}
use fetch_bilibili.Repo.Models.{VideoState, out_of_print, stable, Video}
use fetch_bilibili.Repo.Videos.{update_videos, update_check_status, same_state, coalesce, checkable}
use fetch_bilibili.Repo.Videos.States.{state_of}
use fetch_bilibili.Worker.Handler.{Handler}
use fetch_bilibili.Worker.Check.{
  check_available, checked, is_stable, stable_cutoff, check_video, check_each, write_check, at_if,
  answered, written, latest, report, sync_storage_rare_videos_on_check,
}
use fetch_bilibili.Worker.Publishing.{should_publish_video_changed}
use fetch_bilibili.Worker.Snapshot.Scan.{publish_video_changed-Keeps}
use fetch_bilibili.Worker.Waiting.{wait_for_creator-Keeps}

-- Writing another video leaves the state alone; writing this one sets it.
pub state_of-check :
    (id other : ℕ) (s : VideoState) (f : Video → Video) (vs : List Video) (t : VideoState)
    → ((v : Video) → (f v).id ≡ v.id)
    → ((v : Video) → (f v).state ≡ s)
    → state_of id vs ≡ some t
    → state_of id (update_videos other f vs) ≡ (if other == id then some s else some t)
state_of-check id other s f [] t i g e = cc
state_of-check id other s f (v ∷ rest) t i g e =
    ground (arith, state_of-check id other s f rest t, i v, g v)

abbrev pub part : World → Outside × List Video
part w = (w.outside, w.videos)

abbrev same_row : Video → Video → Bool
same_row v u =
    same_state u.state v.state && str_eq u.video_id v.video_id && u.publish_time == v.publish_time

-- What the platform's answers and the clock allow: out of print after the answer that the video is not
-- there; stable after the answer that it is, if it was published before the cutoff.
abbrev pub IsVerdict : Handler → Outside → Video → VideoState → Type 0
IsVerdict h o v t =
    ((t ≡ out_of_print) × (n : ℕ) × (o.available n v.video_id ≡ ok false))
    ⊎ ((t ≡ stable)
        × (n : ℕ) × (m : ℕ) × (o.available n v.video_id ≡ ok true)
        × (0 < v.publish_time)
        × (ltb_ℤ (pos v.publish_time) (stable_cutoff h (o.clock m)) ≡ true))

-- The state is as before; or the video was asked for, or is in a state that is checked, and the new
-- state is a verdict.
abbrev pub MayBe : Handler → Outside → Bool → Video → VideoState → Type 0
MayBe h o named v t = (t ≡ v.state) ⊎ (((named || checkable v.state) ≡ true) × IsVerdict h o v t)

module _ (h : Handler) (o : Outside) (named : Bool) (v : Video) where
  -- A row with the id is like `v`; a listed one may also be checked.
  abbrev pub agrees : Video → Bool
  agrees u = not (u.id == v.id) || same_row v u

  abbrev pub fits : Video → Bool
  fits u = not (u.id == v.id) || (same_row v u && (named || checkable v.state))

  abbrev pub IsChecked : Outside × List Video → Type 0
  IsChecked p = (p.0 ≡ o) × (t : VideoState) × (state_of v.id p.1 ≡ some t) × MayBe h o named v t

  pub same_state-eq : (a b : VideoState) → same_state a b ≡ true → a ≡ b
  same_state-eq a b e = ground arith

  -- The platform's answer to some call.
  abbrev pub Says : String → Result Bool → Type 0
  Says id r = (n : ℕ) × (o.available n id ≡ r)

  abbrev pub Shown : ℕ → Type 0
  Shown at = (m : ℕ) × (at ≡ o.clock m)

  checked-MayBe :
      (at : ℕ) (available : Bool) (u : Video)
      → Says u.video_id (ok available)
      → Shown at
      → fits u ≡ true
      → (u.id == v.id) ≡ true
      → MayBe h o named v (checked at (stable_cutoff h at) available u).state
  checked-MayBe at false u (n, a) k f e =
      let i : u.video_id ≡ v.video_id = (eq_iff u.video_id v.video_id).0 (ground (arith, f, e)) in
      inr (ground (arith, f, e), inl (refl, n, subst (λ x. o.available n x ≡ ok false) i a))
  checked-MayBe at true u (n, a) (m, k) f e =
      let i : u.video_id ≡ v.video_id = (eq_iff u.video_id v.video_id).0 (ground (arith, f, e)) in
      let p : u.publish_time ≡ v.publish_time = ground (arith, f, e) in
      elim (Bool-cases (is_stable (stable_cutoff h at) u)) [
        | inr q ↦ inl (rw q (same_state-eq u.state v.state (ground (arith, f, e))))
        | inl q ↦ inr (
          ground (arith, f, e),
          inr (
            rw q refl,
            n,
            m,
            subst (λ x. o.available n x ≡ ok true) i a,
            ground (arith, q, p),
            subst (λ c. ltb_ℤ (pos v.publish_time) (stable_cutoff h c) ≡ true) k
                (subst (λ x. ltb_ℤ (pos x) (stable_cutoff h at) ≡ true) p (ground (arith, q))),
          ),
        )
      ]

  write_check_cases :
      (at : ℕ) (cutoff : ℤ) (available : Bool) (u : Video) (w : World) (t : VideoState)
      → state_of v.id w.videos ≡ some t
      → (state_of v.id (write_check at cutoff available u w).1.videos ≡ some t)
        ⊎ ((state_of v.id (write_check at cutoff available u w).1.videos
              ≡ some (checked at cutoff available u).state)
            × ((u.id == v.id) ≡ true))
  unfolding update_check_status call
  write_check_cases at cutoff available u w t e = ground (
    arith,
    state_of-check v.id u.id (checked at cutoff available u).state
        (λ r. record r {
          state = (checked at cutoff available u).state;
          out_of_print_at = coalesce (at_if (not available) at) r.out_of_print_at;
          stable_at = coalesce (at_if (available && is_stable cutoff u) at) r.stable_at;
          last_check_at = at;
          updated_at = w.outside.clock (suc w.calls);
        })
        w.videos t (λ r. refl) (λ r. refl) e,
  )

  write_check-outside :
      (at : ℕ) (cutoff : ℤ) (available : Bool) (u : Video) (w : World)
      → (write_check at cutoff available u w).1.outside ≡ w.outside
  unfolding update_check_status call
  write_check-outside at cutoff available u w = ground arith

  write_check-IsChecked :
      (at : ℕ) (available : Bool) (u : Video) (w : World)
      → Says u.video_id (ok available)
      → Shown at
      → fits u ≡ true
      → IsChecked (part w)
      → IsChecked (part (write_check at (stable_cutoff h at) available u w).1)
  write_check-IsChecked at available u w a k f (i, t, e, m) =
      let out = write_check-outside at (stable_cutoff h at) available u w ∙ i in
      elim (write_check_cases at (stable_cutoff h at) available u w t e) [
        | inl g ↦ (out, t, g, m)
        | inr (g, j) ↦ (
          out,
          (checked at (stable_cutoff h at) available u).state,
          g,
          checked-MayBe at available u a k f j,
        )
      ]

pub outside-IsStore : IsStore part
outside-IsStore = record {
  no_calls = λ w n. refl;
  no_snapshot = λ w s. refl;
  no_events = λ w es. refl;
  no_global = λ w l. refl;
  no_limiters = λ w ls. refl;
}

pub sync-Keeps :
    (h : Handler) (a b : VideoState) → Keeps part (sync_storage_rare_videos_on_check h a b)
unfolding sync_storage_rare_videos_on_check
sync-Keeps h a b = record { kept = λ w. ground arith }

module _ (h : Handler) (o : Outside) (named : Bool) (v : Video) where
  abbrev pub Checked : World → Type 0
  Checked w = IsChecked h o named v (part w)

  pub same : {A : Type 0} {m : M A} → Keeps part m → Triple Checked m (λ _. Checked) Checked
  same k = Triple-keeps part (IsChecked h o named v) k

  written-Checked :
      (prev : VideoState) (u : Video) (r : Result (Unit {0}))
      → Triple Checked (written h prev u r) (λ _. Checked) Checked
  written-Checked prev u (err e) = Triple-return (some e) (λ w c. c)
  written-Checked prev u (ok _) =
      Triple-bind (λ _. Checked) (same (sync-Keeps h prev u.state))
        λ _.
          Triple-bind (λ _. Checked)
            (same (
              Keeps-if part (should_publish_video_changed prev u.state) _ _
                (publish_video_changed-Keeps outside-IsStore h u) (Keeps-return part tt)))
            λ _. Triple-return none (λ w c. c)

  answered-Checked :
      (at : ℕ) (u : Video) (r : Result Bool)
      → Says h o named v u.video_id r
      → Shown h o named v at
      → fits h o named v u ≡ true
      → Triple Checked (answered h at (stable_cutoff h at) u r) (λ _. Checked) Checked
  answered-Checked at u (err e) a k f = Triple-return (some e) (λ w c. c)
  answered-Checked at u (ok available) a k f =
      Triple-bind (λ _. Checked) {m = attempt (write_check at (stable_cutoff h at) available u)}
        (record { run = λ w c. write_check-IsChecked h o named v at available u w a k f c })
        λ r. written-Checked u.state (checked at (stable_cutoff h at) available u) r

  check_available-Says :
      (id : String)
      → Triple Checked
          (attempt (check_available id))
          (λ r w. Checked w × Says h o named v id r)
          Checked
  unfolding check_available
  check_available-Says id = record {
    run = λ w c. (c, (w.calls, ap (λ p. p.available w.calls id) (sym c.0)));
  }

  check_video-Checked :
      (at : ℕ) (u : Video)
      → Shown h o named v at
      → fits h o named v u ≡ true
      → Triple Checked (check_video h at (stable_cutoff h at) u) (λ _. Checked) Checked
  unfolding check_video
  check_video-Checked at u k f =
      Triple-bind (λ _. Checked) (same (wait_for_creator-Keeps outside-IsStore h u.creator_id))
        λ _.
          Triple-bind (λ r w. Checked w × Says h o named v u.video_id r)
            (check_available-Says u.video_id)
            λ r. record { run = λ w c. (answered-Checked at u r c.1 k f).run w c.0 }

  report-Checked : (last : Option Error) → Triple Checked (report last) (λ _. Checked) Checked
  report-Checked none = Triple-return tt (λ w c. c)
  report-Checked (some e) = Triple-throw e (λ w c. c)

  pub check_each-Checked :
      (at : ℕ) (last : Option Error) (us : List Video)
      → Shown h o named v at
      → every (fits h o named v) us ≡ true
      → Triple Checked (check_each h at (stable_cutoff h at) last us) (λ _. Checked) Checked
  unfolding check_each
  check_each-Checked at last [] k a = report-Checked last
  check_each-Checked at last (u ∷ rest) k a =
      Triple-bind (λ _. Checked) (check_video-Checked at u k (ground (arith, a)))
        λ e. check_each-Checked at (latest last e) rest k (ground (arith, a))
