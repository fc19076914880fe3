-- ===== src/Worker/Download/Outcome.antt =====
-- Where a download ends.
use Prim.Native.String.{String}
use fetch_bilibili.Prelude.{ℕ, ◌≡◌, sym, arith, some}
use fetch_bilibili.Prelude.Int.{ℤ, pos}
use mathlib.Core.Path.{subst}
use fetch_bilibili.World.{permanent, Result, ok, err, World, M, now, publish}
use fetch_bilibili.Effects.{Keeps}
use fetch_bilibili.Triples.{Ends, Triple, Triple-bind}
use fetch_bilibili.Repo.Models.{downloading, downloaded, failed, Video}
use fetch_bilibili.Repo.Videos.States.{state_of, update_state_lem}
use fetch_bilibili.Worker.Handler.{Handler}
use fetch_bilibili.Worker.Publishing.{publish_video_changed}
use fetch_bilibili.Worker.Snapshot.{publish_storage_changed, StorageDelta}
use fetch_bilibili.Worker.Snapshot.Scan.{publish_video_changed-Keeps, publish_storage_changed-Keeps}
use fetch_bilibili.Worker.Download.{download_failed, fetch_file}
use fetch_bilibili.Worker.Download.States.{
  tables, tables-IsStore, Unsettled, AsUnsettled, Downloading, Done, wait-Downloading, or_reset,
  client-Fetched, or_failed, create-Saved, or_unrecorded, finish-Done,
}

ends_ok :
    (post fail : World → Type 0) (r : Result (Unit {0}) × World)
    → post r.1
    → r.0 ≡ ok tt
    → Ends (λ _. post) fail r
ends_ok post fail (ok a, w) p e = p
ends_ok post fail (err x, w) p e = ground arith

-- An operation that cannot fail, for what holds of a part that it keeps.
keeps_ok :
    {S : Type 0} (part : World → S) (P : S → Type 0) {m : M (Unit {0})} {fail : World → Type 0}
    → Keeps part m
    → ((w : World) → (m w).0 ≡ ok tt)
    → Triple (λ w. P (part w)) m (λ _ w. P (part w)) fail
keeps_ok part P {m = m} {fail = fail} k o = record {
  run = λ w p. ends_ok (λ v. P (part v)) fail (m w) (subst P (sym (k.kept w)) p) (o w);
}

publish_video_changed-ok :
    (h : Handler) (v : Video) (w : World) → (publish_video_changed h v w).0 ≡ ok tt
unfolding publish_video_changed publish now
publish_video_changed-ok h v w = ground arith

publish_storage_changed-ok :
    (h : Handler) (d : StorageDelta) (w : World) → (publish_storage_changed h d w).0 ≡ ok tt
unfolding publish_storage_changed publish now
publish_storage_changed-ok h d w = ground arith

abbrev delta : ℤ → StorageDelta
delta size = record { used_bytes = size; file_count = pos 1; rare_videos = pos 0 }

module _ (h : Handler) (id : ℕ) (v : Video) (dst : String) where
  fetch_file-Done :
      Triple
        (Downloading id dst)
        (fetch_file h id v dst)
        (λ _ w. Done id dst (tables w))
        (AsUnsettled id dst)
  unfolding fetch_file
  fetch_file-Done = Triple-bind _ (wait-Downloading id dst h v.creator_id) λ waited.
      Triple-bind _ (or_reset id dst waited) λ _.
        Triple-bind _ (client-Fetched id dst v.video_id) λ fetched.
          Triple-bind _ (or_failed id dst h v fetched) λ size.
            Triple-bind _ (create-Saved id dst size) λ recorded.
              Triple-bind _ (or_unrecorded id dst recorded) λ _.
                Triple-bind _ (finish-Done id dst) λ _.
                  Triple-bind _
                    (keeps_ok tables (Done id dst)
                      (publish_video_changed-Keeps tables-IsStore h
                        (record v { state = downloaded }))
                      (publish_video_changed-ok h (record v { state = downloaded })))
                    λ _.
                      keeps_ok tables (Done id dst)
                        (publish_storage_changed-Keeps tables-IsStore h (delta size))
                        (publish_storage_changed-ok h (delta size))

-- How a download ends: in success with the video DOWNLOADED, its file under the store root and a
-- file record for it; in failure with the video NEW, or still DOWNLOADING.
abbrev pub IsOutcome : ℕ → String → Result (Unit {0}) × World → Type 0
IsOutcome id dst (ok _, w) = Done id dst (tables w)
IsOutcome id dst (err e, w) = Unsettled id dst (tables w)

ends-IsOutcome :
    (id : ℕ) (dst : String) (r : Result (Unit {0}) × World)
    → Ends (λ _ w. Done id dst (tables w)) (AsUnsettled id dst) r
    → IsOutcome id dst r
ends-IsOutcome id dst (ok a, w) e = e
ends-IsOutcome id dst (err x, w) e = e

-- For a video whose row is DOWNLOADING, the part of handleDownload after that mark ends well or
-- not, whichever calls fail. If it ends well, the row is DOWNLOADED, the file is on disk, and there
-- is a file record with its path. If not, the row is NEW or still DOWNLOADING.
pub fetch_file-IsOutcome :
    (h : Handler) (id : ℕ) (v : Video) (dst : String) (w : World)
    → state_of id w.videos ≡ some downloading
    → IsOutcome id dst (fetch_file h id v dst w)
fetch_file-IsOutcome h id v dst w e =
    ends-IsOutcome id dst (fetch_file h id v dst w) ((fetch_file-Done h id v dst).run w e)

-- A download that the platform refuses for good leaves the row of the video DOWNLOADING, and never
-- FAILED, whether or not a call of the database fails.
pub permanent_failure_stays_downloading :
    (h : Handler) (id : ℕ) (v : Video) (code : ℤ) (w : World)
    → state_of id w.videos ≡ some downloading
    → ((download_failed h id v (permanent code) w).0 ≡ err (permanent code))
      × (state_of id (download_failed h id v (permanent code) w).1.videos ≡ some downloading)
unfolding download_failed publish_video_changed publish now
permanent_failure_stays_downloading h id v code w e =
    ground (arith, update_state_lem id failed downloading w)
