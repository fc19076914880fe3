-- ===== src/Worker/Snapshot.antt =====
-- internal/worker/handler.go: scanStorageUsage, countRareVideos, and the storage figures that are
-- kept between jobs: seedStorageSnapshot, ensureStorageSnapshotInitialized, applyStorageDelta and
-- publishStorageChanged.
use Prim.Native.String.{String}
use package.text.Mathlib.Text.{◌==◌ as str_eq}
use fetch_bilibili.Prelude.{Bool, true, false, not, ◌||◌, some, List, [], ◌∷◌, if◌then◌else◌}
use fetch_bilibili.Prelude.Int.{ℤ, pos, ◌+ℤ◌, ltb_ℤ, i64}
use fetch_bilibili.World.{
  not_exist, Result, ok, err, DiskFile, storage_changed, StorageSnapshot, M, ◌>>=◌, ◌>>◌, return,
  throw, call, attempt, now, publish,
}
use fetch_bilibili.Repo.Models.{out_of_print}
use fetch_bilibili.Repo.Videos.{count_by_state}
use fetch_bilibili.Worker.Handler.{Handler}
use fetch_bilibili.Worker.Policy.{percent}
pub mod Scan

-- The bytes and the number of the files under the store root, in int64.
abbrev pub Usage : Type 0
Usage = ℤ × ℤ

unfoldable pub walk : List DiskFile → Usage → Usage
walk [] u = u
walk (f ∷ rest) u = walk rest (i64 (u.0 +ℤ pos f.size), i64 (u.1 +ℤ pos 1))

-- os.Stat of the root, of the store root under it, and then the walk. A root that does not exist
-- has no use.
abbrev pub unless_missing : Result Usage → M Usage
unless_missing (ok u) = return u
unless_missing (err not_exist) = return (pos 0, pos 0)
unless_missing (err e) = throw e

unfoldable pub stat_then : M Usage → M Usage
unfolding call
stat_then m = do
  found ← attempt (call (return tt))
  elim found [ ok _ ↦ m | err e ↦ unless_missing (err e) ]

unfoldable pub scan_storage_usage : String → M Usage
unfolding stat_then walk call
scan_storage_usage root =
    if str_eq root ""
    then return (pos 0, pos 0)
    else stat_then (stat_then (call (λ w. (ok (walk w.disk (pos 0, pos 0)), w))))

unfoldable pub count_rare_videos : Handler → M ℤ
count_rare_videos h =
    if h.has_videos
    then (do n ← count_by_state (some out_of_print); return (pos n))
    else return (pos 0)

abbrev pub put_snapshot : StorageSnapshot → M (Unit {0})
put_snapshot s w = (ok tt, record w { snapshot = s })

abbrev pub get_snapshot : M StorageSnapshot
get_snapshot w = (ok w.snapshot, w)

abbrev pub unpublished : Handler → Bool
unpublished h = not h.has_publisher || str_eq h.storage_root ""

-- seedStorageSnapshot: a failure to count is logged only.
unfoldable pub seed_storage_snapshot : Handler → Usage → M (Unit {0})
seed_storage_snapshot h usage = if unpublished h then return tt else (do
  s ← get_snapshot
  (if s.initialized then return tt else (do
    rare ← attempt (count_rare_videos h)
    elim rare [
      | err e ↦ return tt
      | ok n ↦ put_snapshot (record {
        initialized = true;
        used_bytes = usage.0;
        file_count = usage.1;
        rare_videos = n;
        dirty_rare = s.dirty_rare;
      })
    ])))

unfoldable pub ensure_storage_snapshot_initialized : Handler → M (Unit {0})
ensure_storage_snapshot_initialized h = if unpublished h then return tt else (do
  s ← get_snapshot
  (if s.initialized
      then return tt
      else (do usage ← scan_storage_usage h.storage_root; seed_storage_snapshot h usage)))

pub record StorageDelta : Type 0 where
  pub used_bytes : ℤ
  pub file_count : ℤ
  pub rare_videos : ℤ

abbrev at_least_zero : ℤ → ℤ
at_least_zero z = if ltb_ℤ z (pos 0) then pos 0 else z

-- The figures with the delta added; the rare videos are left as they are if just counted.
unfoldable pub add_delta : Bool → StorageDelta → StorageSnapshot → StorageSnapshot
add_delta refreshed_rare d s = record s {
  used_bytes = at_least_zero (i64 (s.used_bytes +ℤ d.used_bytes));
  file_count = at_least_zero (i64 (s.file_count +ℤ d.file_count));
  rare_videos =
      at_least_zero
        (if refreshed_rare then s.rare_videos else i64 (s.rare_videos +ℤ d.rare_videos));
}

-- The figures before the delta, and whether the rare videos were just counted.
unfoldable pub refresh_snapshot : Handler → M (Bool × StorageSnapshot)
refresh_snapshot h = do
  s ← get_snapshot
  (if not s.initialized
      then (do
        usage ← scan_storage_usage h.storage_root
        rare ← count_rare_videos h
        return (
          true,
          record {
            initialized = true;
            used_bytes = usage.0;
            file_count = usage.1;
            rare_videos = rare;
            dirty_rare = false;
          },
        ))
      else if s.dirty_rare
      then (do
        rare ← count_rare_videos h
        return (true, record s { rare_videos = rare; dirty_rare = false }))
      else return (false, s))

unfoldable pub apply_storage_delta : Handler → StorageDelta → M StorageSnapshot
apply_storage_delta h d = do
  (refreshed, s) ← refresh_snapshot h
  put_snapshot (add_delta refreshed d s)
  return (add_delta refreshed d s)

-- A failure to bring the figures up to date is logged, and nothing is published.
unfoldable pub publish_storage_changed : Handler → StorageDelta → M (Unit {0})
publish_storage_changed h d = if unpublished h then return tt else (do
  snapshot ← attempt (apply_storage_delta h d)
  elim snapshot [
    | err e ↦ return tt
    | ok s ↦ (do
      at ← now
      publish (
          storage_changed at s.used_bytes s.file_count s.rare_videos
            (percent s.used_bytes h.storage_max)))
  ])
