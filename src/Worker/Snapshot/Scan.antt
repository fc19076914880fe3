-- ===== src/Worker/Snapshot/Scan.antt =====
-- What a scan of the store finds, and that the storage figures leave the disk alone.
use Prim.Native.String.{String}
use package.text.Mathlib.Text.{◌==◌ as str_eq}
use fetch_bilibili.Prelude.{
  ℕ, suc, ◌+◌, ◌<◌, ◌≡◌, ◌≢◌, refl, ap, ◌∙◌, arith, true, false, not, some, List, [], ◌∷◌,
}
use fetch_bilibili.Prelude.Int.{ℤ, pos, ◌+ℤ◌, i64, i64_half}
use fetch_bilibili.World.{
  not_exist, Result, ok, err, DiskFile, StorageSnapshot, World, M, now, publish, return, ◌>>=◌,
  storage_changed,
}
use fetch_bilibili.Effects.{
  Keeps, Keeps-bind, Keeps-if, Keeps-return, Keeps-throw, Keeps-attempt, IsStore, Keeps-call,
  Keeps-now, Keeps-publish,
}
use fetch_bilibili.Repo.Models.{Video}
use fetch_bilibili.Repo.Videos.{count_by_state}
use fetch_bilibili.Worker.Handler.{Handler}
use fetch_bilibili.Worker.Policy.{percent}
use fetch_bilibili.Worker.Publishing.{publish_video_changed}
use fetch_bilibili.Worker.Usage.{usage, add_pos}
use fetch_bilibili.Worker.Snapshot.{
  add_delta, ensure_storage_snapshot_initialized, walk, unless_missing, stat_then, Usage,
  StorageDelta, unpublished, get_snapshot, put_snapshot, scan_storage_usage, count_rare_videos,
  seed_storage_snapshot, refresh_snapshot, apply_storage_delta, publish_storage_changed,
}

walk-usage :
    (d : List DiskFile) (a : ℕ) (n : ℤ)
    → a + usage d < i64_half
    → (walk d (pos a, n)).0 ≡ pos (a + usage d)
unfolding walk
walk-usage [] a n b = ap pos (omega arith)
walk-usage (f ∷ rest) a n b =
    rw (add_pos a f.size (omega arith), walk)
      (walk-usage rest (a + f.size) (i64 (n +ℤ pos 1)) (omega arith) ∙ ap pos (omega arith))

-- The two calls that look for the root and for the store under it do not miss them.
pub record StoreIsThere (w : World) : Type 0 where
  pub root_there : w.outside.fault w.calls ≢ some not_exist
  pub store_there : w.outside.fault (suc w.calls) ≢ some not_exist

-- A scan that succeeds has added up the sizes of the files.
pub scan_storage_usage_lem :
    (root : String) (w : World) {u : ℤ × ℤ}
    → str_eq root "" ≡ false
    → StoreIsThere w
    → usage w.disk < i64_half
    → (scan_storage_usage root w).0 ≡ ok u
    → u.0 ≡ pos (usage w.disk)
unfolding scan_storage_usage
scan_storage_usage_lem root w r t b e =
    ground (arith, walk-usage w.disk 0 (pos 0), t.root_there, t.store_there)

module _ {S : Type 0} {part : World → S} (i : IsStore part) where
  stat_then-Keeps : (m : M Usage) → Keeps part m → Keeps part (stat_then m)
  unfolding stat_then
  stat_then-Keeps m k =
      Keeps-bind part _ _ (Keeps-attempt part _ (Keeps-call i _ (Keeps-return part tt)))
        λ r. after_stat r
    where
      after_stat :
          (r : Result (Unit {0}))
          → Keeps part (elim r [ ok _ ↦ m | err e ↦ unless_missing (err e) ])
      after_stat (ok _) = k
      after_stat (err not_exist) = Keeps-return part (pos 0, pos 0)
      after_stat (err e) = Keeps-throw part e

  pub scan_storage_usage-Keeps : (root : String) → Keeps part (scan_storage_usage root)
  unfolding scan_storage_usage
  scan_storage_usage-Keeps root =
      Keeps-if part (str_eq root "") _ _ (Keeps-return part (pos 0, pos 0))
        (stat_then-Keeps _ (stat_then-Keeps _ (Keeps-call i _ (record { kept = λ w. refl }))))

  count_rare_videos-Keeps : (h : Handler) → Keeps part (count_rare_videos h)
  unfolding count_rare_videos count_by_state
  count_rare_videos-Keeps h =
      Keeps-if part h.has_videos _ _
        (Keeps-bind part _ _ (Keeps-call i _ (record { kept = λ w. refl }))
          λ n. Keeps-return part (pos n))
        (Keeps-return part (pos 0))

  get_snapshot-Keeps : Keeps part get_snapshot
  get_snapshot-Keeps = record { kept = λ w. refl }

  put_snapshot-Keeps : (s : StorageSnapshot) → Keeps part (put_snapshot s)
  put_snapshot-Keeps s = record { kept = λ w. i.no_snapshot w s }

  pub seed_storage_snapshot-Keeps :
      (h : Handler) (u : Usage) → Keeps part (seed_storage_snapshot h u)
  unfolding seed_storage_snapshot
  seed_storage_snapshot-Keeps h u = Keeps-if part (unpublished h) _ _ (Keeps-return part tt) (
      Keeps-bind part _ _ get_snapshot-Keeps λ s.
        Keeps-if part s.initialized _ _ (Keeps-return part tt) (
          Keeps-bind part _ _ (Keeps-attempt part _ (count_rare_videos-Keeps h))
            λ r. after_count s r))
    where
      after_count :
          (s : StorageSnapshot) (r : Result ℤ)
          → Keeps part (elim r [
            | err e ↦ return tt
            | ok n ↦ put_snapshot (record {
              initialized = true;
              used_bytes = u.0;
              file_count = u.1;
              rare_videos = n;
              dirty_rare = s.dirty_rare;
            })
          ])
      after_count s (err e) = Keeps-return part tt
      after_count s (ok n) = put_snapshot-Keeps _

  pub ensure_storage_snapshot_initialized-Keeps :
      (h : Handler) → Keeps part (ensure_storage_snapshot_initialized h)
  unfolding ensure_storage_snapshot_initialized
  ensure_storage_snapshot_initialized-Keeps h =
      Keeps-if part (unpublished h) _ _ (Keeps-return part tt) (
        Keeps-bind part _ _ get_snapshot-Keeps λ s.
          Keeps-if part s.initialized _ _ (Keeps-return part tt) (
            Keeps-bind part _ _ (scan_storage_usage-Keeps h.storage_root)
              λ u. seed_storage_snapshot-Keeps h u))

  refresh_snapshot-Keeps : (h : Handler) → Keeps part (refresh_snapshot h)
  unfolding refresh_snapshot
  refresh_snapshot-Keeps h = Keeps-bind part _ _ get_snapshot-Keeps λ s.
      Keeps-if part (not s.initialized) _ _
        (Keeps-bind part _ _ (scan_storage_usage-Keeps h.storage_root)
          λ u. Keeps-bind part _ _ (count_rare_videos-Keeps h) λ n. Keeps-return part _)
        (Keeps-if part s.dirty_rare _ _
          (Keeps-bind part _ _ (count_rare_videos-Keeps h) λ n. Keeps-return part _)
          (Keeps-return part _))

  apply_storage_delta-Keeps :
      (h : Handler) (d : StorageDelta) → Keeps part (apply_storage_delta h d)
  unfolding apply_storage_delta
  apply_storage_delta-Keeps h d = Keeps-bind part _ _ (refresh_snapshot-Keeps h) λ r.
      Keeps-bind part _ _ (put_snapshot-Keeps (add_delta r.0 d r.1))
        λ _. Keeps-return part (add_delta r.0 d r.1)

  pub publish_storage_changed-Keeps :
      (h : Handler) (d : StorageDelta) → Keeps part (publish_storage_changed h d)
  unfolding publish_storage_changed
  publish_storage_changed-Keeps h d =
      Keeps-if part (unpublished h) _ _ (Keeps-return part tt)
        (Keeps-bind part _ _ (Keeps-attempt part _ (apply_storage_delta-Keeps h d)) λ r. announce r)
    where
      announce :
          (r : Result StorageSnapshot)
          → Keeps part (elim r [
            | err e ↦ return tt
            | ok s ↦
                (now >>= λ at. publish (
                  storage_changed at s.used_bytes s.file_count s.rare_videos
                    (percent s.used_bytes h.storage_max)))
          ])
      announce (err e) = Keeps-return part tt
      announce (ok s) = Keeps-bind part _ _ (Keeps-now i) λ at. Keeps-publish i _

  pub publish_video_changed-Keeps :
      (h : Handler) (v : Video) → Keeps part (publish_video_changed h v)
  unfolding publish_video_changed
  publish_video_changed-Keeps h v =
      Keeps-if part (not h.has_publisher) _ _ (Keeps-return part tt)
        (Keeps-bind part _ _ (Keeps-now i) λ at. Keeps-publish i _)
