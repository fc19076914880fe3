-- ===== src/Worker/Check.antt =====
-- internal/worker/handler.go: handleCheck and syncStorageRareVideosOnCheck.
use Prim.Native.String.{String}
use package.text.Mathlib.Text.{◌==◌ as str_eq}
use fetch_bilibili.Prelude.{
  ℕ, zero, suc, Bool, true, false, not, ◌&&◌, ◌||◌, ◌==◌, Option, none, some, List, [], ◌∷◌,
  if◌then◌else◌,
}
use fetch_bilibili.Prelude.Int.{ℤ, pos, ◌+ℤ◌, ◌-ℤ◌, ◌*ℤ◌, i64, ltb_ℤ}
use fetch_bilibili.World.{
  Error, not_initialized, Result, ok, err, World, M, next, ◌>>=◌, ◌>>◌, return, throw, call,
  attempt, now,
}
use fetch_bilibili.Repo.Payload.{Payload, payload_int64}
use fetch_bilibili.Repo.Models.{VideoState, out_of_print, stable, Video}
use fetch_bilibili.Repo.Videos.{find_by_id, list_for_check, update_check_status, same_state}
use fetch_bilibili.Worker.Handler.{Handler}
use fetch_bilibili.Worker.Policy.{hour}
use fetch_bilibili.Worker.Waiting.{wait_for_creator}
use fetch_bilibili.Worker.Publishing.{publish_video_changed, should_publish_video_changed}
use fetch_bilibili.Worker.Snapshot.{get_snapshot, put_snapshot}
use fetch_bilibili.Worker.Download.{positive}
pub mod States
pub mod Outcome
pub mod Decides

-- The client's answer.
unfoldable pub check_available : String → M Bool
check_available video_id w =
    (w.outside.available w.calls video_id, record w { calls = suc w.calls })

-- now.Add(-time.Duration(h.stableDays) * 24 * time.Hour).
unfoldable pub stable_cutoff : Handler → ℕ → ℤ
stable_cutoff h at = pos at +ℤ i64 (i64 (i64 (pos 0 -ℤ h.stable_days) *ℤ pos 24) *ℤ hour)

-- A time of 0 is Go's zero time.
abbrev pub is_stable : ℤ → Video → Bool
is_stable cutoff v = not (v.publish_time == 0) && ltb_ℤ (pos v.publish_time) cutoff

-- The video with the state that the answer means, and the times that go with it.
abbrev pub checked : ℕ → ℤ → Bool → Video → Video
checked at cutoff available v =
    if not available
    then record v { state = out_of_print; out_of_print_at = at; last_check_at = at }
    else if is_stable cutoff v
    then record v { state = stable; stable_at = at; last_check_at = at }
    else record v { last_check_at = at }

abbrev pub at_if : Bool → ℕ → Option ℕ
at_if true at = some at
at_if false at = none

abbrev pub write_check : ℕ → ℤ → Bool → Video → M (Unit {0})
write_check at cutoff available v =
    update_check_status v.id (checked at cutoff available v).state (at_if (not available) at)
      (at_if (available && is_stable cutoff v) at) at

unfoldable pub sync_storage_rare_videos_on_check : Handler → VideoState → VideoState → M (Unit {0})
sync_storage_rare_videos_on_check h prev next =
    if same_state prev next
    then return tt
    else if same_state prev out_of_print && same_state next out_of_print
        || not (same_state prev out_of_print) && not (same_state next out_of_print)
    then return tt
    else if str_eq h.storage_root ""
    then return tt
    else get_snapshot >>= λ s. put_snapshot (record s { dirty_rare = true })

-- After the row is written.
abbrev announce : Handler → VideoState → Video → M (Option Error)
announce h prev next = do
  sync_storage_rare_videos_on_check h prev next.state
  (if should_publish_video_changed prev next.state then publish_video_changed h next else return tt)
  return none

abbrev pub written : Handler → VideoState → Video → Result (Unit {0}) → M (Option Error)
written h prev next (err e) = return (some e)
written h prev next (ok _) = announce h prev next

abbrev pub answered : Handler → ℕ → ℤ → Video → Result Bool → M (Option Error)
answered h at cutoff v (err e) = return (some e)
answered h at cutoff v (ok available) = do
  r ← attempt (write_check at cutoff available v)
  written h v.state (checked at cutoff available v) r

-- One video: the error that is kept for the end, if there is one.
unfoldable pub check_video : Handler → ℕ → ℤ → Video → M (Option Error)
check_video h at cutoff v = do
  wait_for_creator h v.creator_id
  available ← attempt (check_available v.video_id)
  answered h at cutoff v available

abbrev pub latest : Option Error → Option Error → Option Error
latest last none = last
latest last (some e) = some e

abbrev pub report : Option Error → M (Unit {0})
report none = return tt
report (some e) = throw e

unfoldable pub check_each : Handler → ℕ → ℤ → Option Error → List Video → M (Unit {0})
check_each h at cutoff last [] = report last
check_each h at cutoff last (v ∷ rest) =
    check_video h at cutoff v >>= λ e. check_each h at cutoff (latest last e) rest

abbrev pub to_check : Handler → Option ℕ → M (List Video)
to_check h (some id) = find_by_id id >>= λ v. return (v ∷ [])
to_check h none = list_for_check h.check_limit

abbrev pub check_listed : Handler → List Video → M (Unit {0})
check_listed h [] = return tt
check_listed h (v ∷ rest) = now >>= λ at. check_each h at (stable_cutoff h at) none (v ∷ rest)

unfoldable pub handle_check : Handler → Payload → M (Unit {0})
handle_check h payload = if not h.has_videos || not h.has_client then throw not_initialized else (do
  vs ← (λ w. to_check h (positive (payload_int64 w.outside.parse_int payload "video_id")) w)
  check_listed h vs)
