-- ===== src/Worker/Check/Decides.antt =====
-- What the check of one video writes when nothing fails.
use fetch_bilibili.Prelude.{
  ℕ, suc, ltb, ◌==◌, ◌≡◌, refl, ◌∙◌, ap, arith, Bool, true, false, not, ◌&&◌, none, some,
  if◌then◌else◌,
}
use fetch_bilibili.Prelude.Int.{ℤ, pos, ltb_ℤ}
use fetch_bilibili.World.{Result, ok, err, World, call}
use fetch_bilibili.Effects.{Keeps, Keeps-return, Keeps-bind, Keeps-if}
use fetch_bilibili.Repo.Models.{VideoState, out_of_print, stable, Video}
use fetch_bilibili.Repo.Videos.{update_check_status, coalesce}
use fetch_bilibili.Repo.Videos.States.{state_of}
use fetch_bilibili.Worker.Handler.{Handler}
use fetch_bilibili.Worker.Check.{checked, is_stable, at_if, write_check, written, answered}
use fetch_bilibili.Worker.Check.States.{part, outside-IsStore, state_of-check, sync-Keeps}
use fetch_bilibili.Worker.Publishing.{should_publish_video_changed}
use fetch_bilibili.Worker.Snapshot.Scan.{publish_video_changed-Keeps}

-- The state that the answer and the cutoff ask for.
abbrev pub decided : ℤ → Bool → Video → VideoState
decided cutoff false v = out_of_print
decided cutoff true v =
    if ltb 0 v.publish_time && ltb_ℤ (pos v.publish_time) cutoff then stable else v.state

checked-decided :
    (at : ℕ) (cutoff : ℤ) (b : Bool) (v : Video)
    → (checked at cutoff b v).state ≡ decided cutoff b v
checked-decided at cutoff false v = refl
checked-decided at cutoff true v = ground arith

same_id : (v : Video) → (v.id == v.id) ≡ true
same_id v = ground arith

write_check_calm :
    (at : ℕ) (cutoff : ℤ) (b : Bool) (v : Video) (w : World)
    → w.outside.fault w.calls ≡ none
    → state_of v.id w.videos ≡ some v.state
    → state_of v.id (write_check at cutoff b v w).1.videos ≡ some (checked at cutoff b v).state
unfolding update_check_status call
write_check_calm at cutoff b v w q e = ground (
  arith,
  q,
  e,
  same_id v,
  state_of-check v.id v.id (checked at cutoff b v).state
      (λ r. record r {
        state = (checked at cutoff b v).state;
        out_of_print_at = coalesce (at_if (not b) at) r.out_of_print_at;
        stable_at = coalesce (at_if (b && is_stable cutoff v) at) r.stable_at;
        last_check_at = at;
        updated_at = w.outside.clock (suc w.calls);
      })
      w.videos v.state (λ r. refl) (λ r. refl) e,
)

written-Keeps :
    (h : Handler) (prev : VideoState) (u : Video) (r : Result (Unit {0}))
    → Keeps part (written h prev u r)
written-Keeps h prev u (err e) = Keeps-return part (some e)
written-Keeps h prev u (ok _) = Keeps-bind part _ _ (sync-Keeps h prev u.state) λ _.
    Keeps-bind part _ _
      (Keeps-if part (should_publish_video_changed prev u.state) _ _
        (publish_video_changed-Keeps outside-IsStore h u) (Keeps-return part tt))
      λ _. Keeps-return part none

-- Once the platform has answered for a video whose row has the state that was read, and the call that
-- writes the row does not fail, the row has the state that the answer asks for: OUT_OF_PRINT if the
-- video is not there; STABLE if it is and was published before the cutoff; and else the state as it
-- was.
pub answered-decided :
    (h : Handler) (at : ℕ) (cutoff : ℤ) (b : Bool) (v : Video) (w : World)
    → w.outside.fault w.calls ≡ none
    → state_of v.id w.videos ≡ some v.state
    → state_of v.id (answered h at cutoff v (ok b) w).1.videos ≡ some (decided cutoff b v)
answered-decided h at cutoff b v w q e =
    let m = write_check at cutoff b v w in
    ap (λ p. state_of v.id p.1) ((written-Keeps h v.state (checked at cutoff b v) m.0).kept m.1)
    ∙ write_check_calm at cutoff b v w q e
    ∙ ap some (checked-decided at cutoff b v)
