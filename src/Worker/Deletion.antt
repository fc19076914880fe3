-- ===== src/Worker/Deletion.antt =====
-- internal/worker/handler.go: deleteCleanupCandidate.
use Prim.Native.String.{String}
use package.text.Mathlib.Text.{◌==◌ as str_eq}
use fetch_bilibili.Prelude.{
  ℕ, suc, ◌==◌, not, Option, none, some, List, [], ◌∷◌, keep, if◌then◌else◌,
}
use fetch_bilibili.Prelude.Int.{ℤ, pos, negsuc}
use fetch_bilibili.World.{
  Error, not_exist, no_file_record, Result, ok, err, DiskFile, M, ◌>>=◌, ◌>>◌, return, throw, call,
  attempt,
}
use fetch_bilibili.Repo.Models.{deleted, CleanupCandidate}
use fetch_bilibili.Repo.Videos.{update_state, find_by_id}
use fetch_bilibili.Repo.VideoFiles.{delete_file_by_id, count_files_by_video_id}
use fetch_bilibili.Worker.Handler.{Handler}
use fetch_bilibili.Worker.Publishing.{publish_video_changed}
use fetch_bilibili.Worker.Ranking.{is_rare}
pub mod Freed

abbrev pub find_file : String → List DiskFile → Option ℕ
find_file path [] = none
find_file path (f ∷ rest) =
    let later = find_file path rest in if str_eq f.path path then some f.size else later

abbrev pub without : String → List DiskFile → List DiskFile
without path = keep (λ f. not (str_eq f.path path))

abbrev pub size_of : Option ℕ → M ℕ
size_of none = throw not_exist
size_of (some n) = return n

-- os.Stat of a path, for its size.
unfoldable pub stat_size : String → M ℕ
unfolding call
stat_size path = call (λ w. size_of (find_file path w.disk) w)

abbrev remove_found : Option ℕ → String → M (Unit {0})
remove_found none path w = throw not_exist w
remove_found (some n) path w = (ok tt, record w { disk = without path w.disk })

abbrev remove_answer : Option Error → String → M (Unit {0})
remove_answer none path w = remove_found (find_file path w.disk) path w
remove_answer (some not_exist) path w = (err not_exist, record w { disk = without path w.disk })
remove_answer (some e) path w = (err e, w)

-- os.Remove. If it says that there is no such file, then another process has removed it.
unfoldable pub remove : String → M (Unit {0})
remove path w = remove_answer (w.outside.fault w.calls) path (record w { calls = suc w.calls })

abbrev after_remove : ℕ → Result (Unit {0}) → M ℤ
after_remove size (ok _) = return (pos size)
after_remove size (err not_exist) = return (pos size)
after_remove size (err e) = throw e

abbrev after_stat : String → Result ℕ → M ℤ
after_stat path (ok size) = do removed ← attempt (remove path); after_remove size removed
after_stat path (err not_exist) = return (pos 0)
after_stat path (err e) = throw e

-- The file goes first, and its bytes count as freed.
unfoldable pub delete_on_disk : String → M ℤ
unfolding stat_size remove
delete_on_disk path = do found ← attempt (stat_size path); after_stat path found

-- The video loses its last file: it is marked deleted. The result is the change of rare videos.
unfoldable pub mark_deleted : Handler → CleanupCandidate → M ℤ
mark_deleted h c = do
  update_state c.video_id deleted
  (if h.has_publisher
      then (do v ← find_by_id c.video_id; publish_video_changed h (record v { state = deleted }))
      else return tt)
  return (if is_rare c.state then negsuc 0 else pos 0)

-- The row of the file and, with the last one, the state of its video.
unfoldable pub delete_rows : Handler → CleanupCandidate → M (ℤ × ℤ)
delete_rows h c = do
  deleted_rows ← delete_file_by_id c.file_id
  (if deleted_rows == 0 then throw no_file_record else (do
    remaining ← count_files_by_video_id c.video_id
    rare ← (if remaining == 0 then mark_deleted h c else return (pos 0))
    return (pos deleted_rows, rare)))

-- Freed bytes, deleted rows, and the change of rare videos.
unfoldable pub delete_cleanup_candidate : Handler → CleanupCandidate → M (ℤ × ℤ × ℤ)
delete_cleanup_candidate h c = do
  freed ← delete_on_disk c.file_path
  rows ← delete_rows h c
  return (freed, rows.0, rows.1)
