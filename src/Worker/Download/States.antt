-- ===== src/Worker/Download/States.antt =====
-- What a download leaves behind, on every path.
use Prim.Native.String.{String}
use package.text.Mathlib.Text.{◌==◌ as str_eq}
use package.text.Mathlib.TextPositions.{eq_refl}
use fetch_bilibili.Prelude.{
  ℕ, suc, ◌≡◌, refl, arith, Bool, true, false, ◌&&◌, ◌||◌, Option, none, some, List, [], ◌∷◌, ◌++◌,
  ◌==◌, ◌⊎◌, inl, inr,
}
use fetch_bilibili.Prelude.Int.{ℤ}
use fetch_bilibili.World.{
  Error, not_exist, permanent, Result, ok, err, DiskFile, World, call, attempt, record_not_saved,
}
use fetch_bilibili.Effects.{IsStore}
use fetch_bilibili.Triples.{
  Ends, Triple, Triple-bind, Triple-return, Triple-throw, Triple-keeps, Triple-keeps_attempt,
}
use fetch_bilibili.Repo.Models.{VideoState, new, downloading, downloaded, failed, Video, VideoFile}
use fetch_bilibili.Repo.Videos.{update_state}
use fetch_bilibili.Repo.Videos.States.{state_of, update_state_lem}
use fetch_bilibili.Repo.VideoFiles.{create_file, row_of}
use fetch_bilibili.Worker.Handler.{Handler}
use fetch_bilibili.Worker.Waiting.{wait_for_creator, wait_for_creator-Keeps}
use fetch_bilibili.Worker.Snapshot.Scan.{publish_video_changed-Keeps}
use fetch_bilibili.Worker.Deletion.{remove, find_file, without}
use fetch_bilibili.Worker.Download.{
  place, client_download, try_update_state, reset_and_fail, download_failed, file_of, or_else,
  record_failed,
}

-- What a download writes to.
abbrev pub Tables : Type 0
Tables = List Video × List VideoFile × List DiskFile

abbrev pub tables : World → Tables
tables w = (w.videos, w.files, w.disk)

pub tables-IsStore : IsStore tables
tables-IsStore = record {
  no_calls = λ w n. refl;
  no_snapshot = λ w s. refl;
  no_events = λ w es. refl;
  no_global = λ w l. refl;
  no_limiters = λ w ls. refl;
}

abbrev pub is_some : {A : Type 0} → Option A → Bool
is_some none = false
is_some (some _) = true

-- A file record of the video for this path.
abbrev pub has_record : ℕ → String → List VideoFile → Bool
has_record id dst [] = false
has_record id dst (f ∷ rest) = (f.video_id == id && str_eq f.path dst) || has_record id dst rest

has_record-snoc :
    (id : ℕ) (dst : String) (fs : List VideoFile) (f : VideoFile)
    → f.video_id ≡ id
    → str_eq f.path dst ≡ true
    → has_record id dst (fs ++ f ∷ []) ≡ true
has_record-snoc id dst [] f e p = ground arith
has_record-snoc id dst (g ∷ rest) f e p = ground (arith, has_record-snoc id dst rest f)

find_file-snoc :
    (dst : String) (d : List DiskFile) (n : ℕ)
    → is_some (find_file dst (d ++ record { path = dst; size = n } ∷ [])) ≡ true
find_file-snoc dst [] n = ground (arith, eq_refl dst)
find_file-snoc dst (f ∷ rest) n = ground (arith, find_file-snoc dst rest n)

module _ (id : ℕ) (dst : String) where
  abbrev pub Marked : VideoState → Tables → Type 0
  Marked s t = state_of id t.0 ≡ some s

  abbrev pub OnDisk : Tables → Type 0
  OnDisk t = is_some (find_file dst t.2) ≡ true

  abbrev pub Recorded : Tables → Type 0
  Recorded t = has_record id dst t.1 ≡ true

  -- The video can be fetched again, or still counts as being downloaded.
  abbrev pub Unsettled : Tables → Type 0
  Unsettled t = Marked new t ⊎ Marked downloading t

  abbrev pub AsUnsettled : World → Type 0
  AsUnsettled w = Unsettled (tables w)

  abbrev pub Downloading : World → Type 0
  Downloading w = Marked downloading (tables w)

  update_state-Unsettled :
      (s : VideoState)
      → (s ≡ new) ⊎ (s ≡ failed)
      → Triple Downloading (try_update_state id s) (λ r. AsUnsettled) AsUnsettled
  update_state-Unsettled s c = record {
    run = λ w p. ground (arith, update_state_lem id s downloading w p, c);
  }

  reset-Unsettled :
      {A : Type 0} (e : Error) {post : A → World → Type 0}
      → Triple Downloading (reset_and_fail {A = A} id e) post AsUnsettled
  reset-Unsettled e =
      Triple-bind (λ r. AsUnsettled) (update_state-Unsettled new (inl refl))
        λ r. Triple-throw e (λ w u. u)

  pub wait-Downloading :
      (h : Handler) (creator : ℕ)
      → Triple Downloading (attempt (wait_for_creator h creator)) (λ r. Downloading) AsUnsettled
  wait-Downloading h creator =
      Triple-keeps_attempt tables (Marked downloading)
        (wait_for_creator-Keeps tables-IsStore h creator)

  pub or_reset :
      (r : Result (Unit {0}))
      → Triple Downloading (or_else r (reset_and_fail id)) (λ _. Downloading) AsUnsettled
  or_reset (ok a) = Triple-return a (λ w p. p)
  or_reset (err e) = reset-Unsettled e

  -- After the client's download.
  abbrev pub Fetched : {A : Type 0} → Result A → World → Type 0
  Fetched (ok _) w = Downloading w × OnDisk (tables w)
  Fetched (err e) w = Downloading w

  pub client-Fetched :
      (video_id : String)
      → Triple Downloading (attempt (client_download video_id dst)) Fetched AsUnsettled
  unfolding client_download
  client-Fetched video_id = record { run = λ w p. after (w.outside.download w.calls video_id) w p }
    where
      after :
          (r : Result (ℤ × ℕ)) (w : World)
          → Downloading w
          → Ends Fetched AsUnsettled (attempt (place dst r) (record w { calls = suc w.calls }))
      after (err e) w p = p
      after (ok (reported, size)) w p = (p, find_file-snoc dst (without dst w.disk) size)

  failed-Unsettled :
      (h : Handler) (v : Video) (e : Error) {post : ℤ → World → Type 0}
      → Triple Downloading (download_failed h id v e) post AsUnsettled
  unfolding download_failed
  failed-Unsettled h v (permanent code) =
      Triple-bind (λ r. AsUnsettled) (update_state-Unsettled failed (inr refl))
        λ r.
          Triple-bind (λ r. AsUnsettled)
            (Triple-keeps tables Unsettled
              (publish_video_changed-Keeps tables-IsStore h (record v { state = failed })))
            λ _. Triple-throw (permanent code) (λ w u. u)
  failed-Unsettled h v not_exist = reset-Unsettled not_exist
  failed-Unsettled h v e = reset-Unsettled e

  pub or_failed :
      (h : Handler) (v : Video) (r : Result ℤ)
      → Triple (Fetched r) (or_else r (download_failed h id v)) (λ _. Fetched (ok tt)) AsUnsettled
  or_failed h v (ok a) = Triple-return a (λ w p. p)
  or_failed h v (err e) = failed-Unsettled h v e

  -- After the file record is written.
  abbrev pub Kept : World → Type 0
  Kept w = Downloading w × OnDisk (tables w) × Recorded (tables w)

  abbrev pub Saved : {A : Type 0} → Result A → World → Type 0
  Saved (ok _) w = Kept w
  Saved (err e) w = Downloading w

  pub create-Saved :
      (size : ℤ)
      → Triple (Fetched (ok tt)) (attempt (create_file (file_of id dst size))) Saved AsUnsettled
  unfolding create_file call
  create-Saved size = record {
    run = λ w p. ground (
      arith,
      eq_refl dst,
      p,
      has_record-snoc id dst w.files
          (row_of (file_of id dst size) (record w { calls = suc w.calls })),
    );
  }

  remove-Downloading : Triple Downloading (attempt (remove dst)) (λ r. Downloading) AsUnsettled
  unfolding remove
  remove-Downloading =
      Triple-keeps_attempt (λ w. w.videos) (λ vs. state_of id vs ≡ some downloading)
        (record { kept = λ w. ground arith })

  pub or_unrecorded :
      (r : Result ℕ) → Triple (Saved r) (or_else r (record_failed id dst)) (λ _. Kept) AsUnsettled
  unfolding record_failed
  or_unrecorded (ok a) = Triple-return a (λ w p. p)
  or_unrecorded (err e) =
      Triple-bind (λ r. Downloading) remove-Downloading λ r. reset-Unsettled (record_not_saved e)

  -- The end of a successful download.
  abbrev pub Done : Tables → Type 0
  Done t = Marked downloaded t × OnDisk t × Recorded t

  pub finish-Done : Triple Kept (update_state id downloaded) (λ _ w. Done (tables w)) AsUnsettled
  unfolding update_state call
  finish-Done = record {
    run = λ w p. ground (arith, update_state_lem id downloaded downloading w p.0, p);
  }
