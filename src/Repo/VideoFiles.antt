-- ===== src/Repo/VideoFiles.antt =====
-- internal/repo/mysql/video_file_repo.go over the table video_files. An INSERT and a DELETE are
-- followed by a second call that reads the id or the count, which may fail by itself.
use fetch_bilibili.Prelude.{ℕ, suc, Bool, not, [], ◌∷◌, ◌++◌, ◌==◌, keep, tally}
use fetch_bilibili.Repo.Models.{FileType, unset, VideoFile}
use fetch_bilibili.World.{ok, World, M, ◌>>=◌, return, call}

abbrev pub type_or_video : FileType → FileType
type_or_video unset = FileType.video
type_or_video t = t

-- The row, with the id and `NOW()` of the database.
abbrev pub row_of : VideoFile → World → VideoFile
row_of f w = record f {
  id = w.next_file_id;
  type = type_or_video f.type;
  created_at = w.outside.clock w.calls;
}

unfoldable pub create_file : VideoFile → M ℕ
unfolding call
create_file f = do
  id ← call (λ w. (
    ok w.next_file_id,
    record w { files = w.files ++ row_of f w ∷ []; next_file_id = suc w.next_file_id },
  ))
  call (return id)

abbrev delete_where : (VideoFile → Bool) → M ℕ
delete_where p w = (ok (tally p w.files), record w { files = keep (λ f. not (p f)) w.files })

unfoldable pub delete_file_by_id : ℕ → M ℕ
unfolding call
delete_file_by_id id = do affected ← call (delete_where (λ f. f.id == id)); call (return affected)

unfoldable pub delete_files_by_video_id : ℕ → M ℕ
unfolding call
delete_files_by_video_id video_id = do
  affected ← call (delete_where (λ f. f.video_id == video_id))
  call (return affected)

unfoldable pub count_files_by_video_id : ℕ → M ℕ
unfolding call
count_files_by_video_id video_id = call (λ w. (ok (tally (λ f. f.video_id == video_id) w.files), w))
