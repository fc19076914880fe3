-- ===== src/Worker/Deletion/Freed.antt =====
-- The bytes that a deletion reports against those that leave the disk.
use Prim.Native.String.{String}
use fetch_bilibili.Prelude.{
  ℕ, ◌+◌, ◌≤◌, ◌≡◌, arith, some, List, [], ◌∷◌, Option-cases, ◌==◌, inl, inr,
}
use fetch_bilibili.Prelude.Int.{ℤ, pos, negsuc}
use fetch_bilibili.World.{
  Result, ok, err, DiskFile, World, next, return, no_file_record, ◌>>=◌, call, now, publish,
}
use fetch_bilibili.Repo.Models.{VideoState, deleted, Video, CleanupCandidate}
use fetch_bilibili.Repo.Videos.{update_state, find_by_id}
use fetch_bilibili.Repo.VideoFiles.{delete_file_by_id, count_files_by_video_id}
use fetch_bilibili.Effects.{Keeps, Keeps-bind, Keeps-if, Keeps-return, Keeps-throw}
use fetch_bilibili.Worker.Usage.{disk, usage}
use fetch_bilibili.Worker.Handler.{Handler}
use fetch_bilibili.Worker.Publishing.{publish_video_changed}
use fetch_bilibili.Worker.Deletion.{
  find_file, without, delete_on_disk, mark_deleted, delete_rows, delete_cleanup_candidate,
}

usage-without_le : (path : String) (d : List DiskFile) → usage (without path d) ≤ usage d
usage-without_le path [] = omega arith
usage-without_le path (f ∷ rest) = ground (arith, usage-without_le path rest)

usage-without_found :
    (path : String) (d : List DiskFile) (n : ℕ)
    → find_file path d ≡ some n
    → usage (without path d) + n ≤ usage d
usage-without_found path [] n e = cc
usage-without_found path (f ∷ rest) n e =
    ground (arith, usage-without_le path rest, usage-without_found path rest n)

-- What is reported as freed has left the disk; a failure reports nothing, and adds nothing.
abbrev pub Frees : Result ℤ → ℕ → ℕ → Type 0
Frees (ok (pos n)) before after = n + after ≤ before
Frees (ok (negsuc n)) before after = ⊥
Frees (err e) before after = after ≤ before

delete_on_disk-Frees :
    (path : String) (w : World)
    → Frees (delete_on_disk path w).0 (usage w.disk) (usage (delete_on_disk path w).1.disk)
unfolding delete_on_disk call
delete_on_disk-Frees path w = elim (Option-cases (find_file path w.disk)) [
  | inl e ↦ ground (arith, usage-without_le path w.disk)
  | inr (n, e) ↦ ground (arith, usage-without_le path w.disk, usage-without_found path w.disk n e)
]

update_state-disk : (id : ℕ) (s : VideoState) → Keeps disk (update_state id s)
unfolding update_state
update_state-disk id s = record { kept = λ w. ground arith }

find_by_id-disk : (id : ℕ) → Keeps disk (find_by_id id)
unfolding find_by_id
find_by_id-disk id = record { kept = λ w. ground arith }

delete_file-disk : (id : ℕ) → Keeps disk (delete_file_by_id id)
unfolding delete_file_by_id
delete_file-disk id = record { kept = λ w. ground arith }

count_files-disk : (id : ℕ) → Keeps disk (count_files_by_video_id id)
unfolding count_files_by_video_id
count_files-disk id = record { kept = λ w. ground arith }

publish_video-disk : (h : Handler) (v : Video) → Keeps disk (publish_video_changed h v)
unfolding publish_video_changed now publish
publish_video-disk h v = record { kept = λ w. ground arith }

mark_deleted-disk : (h : Handler) (c : CleanupCandidate) → Keeps disk (mark_deleted h c)
unfolding mark_deleted
mark_deleted-disk h c = Keeps-bind disk _ _ (update_state-disk c.video_id deleted) λ _.
    Keeps-bind disk _ _
      (Keeps-if disk h.has_publisher _ _
        (Keeps-bind disk _ _ (find_by_id-disk c.video_id) λ v. publish_video-disk h _)
        (Keeps-return disk tt))
      λ _. Keeps-return disk _

pub delete_rows-disk : (h : Handler) (c : CleanupCandidate) → Keeps disk (delete_rows h c)
unfolding delete_rows
delete_rows-disk h c = Keeps-bind disk _ _ (delete_file-disk c.file_id) λ n.
    Keeps-if disk (n == 0) _ _ (Keeps-throw disk no_file_record) (
      Keeps-bind disk _ _ (count_files-disk c.video_id) λ left.
        Keeps-bind disk _ _
          (Keeps-if disk (left == 0) _ _ (mark_deleted-disk h c) (Keeps-return disk (pos 0)))
          λ rare. Keeps-return disk _)

abbrev pub FreesFor : Result (ℤ × ℤ × ℤ) → ℕ → ℕ → Type 0
FreesFor (ok (freed, rows, rare)) before after = Frees (ok freed) before after
FreesFor (err e) before after = after ≤ before

after_disk :
    (h : Handler) (c : CleanupCandidate) (r : Result ℤ) (w : World) (before : ℕ)
    → Frees r before (usage w.disk)
    → (let m =
          next {B = ℤ × ℤ × ℤ}
            (r, w)
            (λ freed. delete_rows h c >>= λ rows. return (freed, rows.0, rows.1)) in
        FreesFor m.0 before (usage m.1.disk))
after_disk h c (err e) w before f = f
after_disk h c (ok (negsuc n)) w before f = absurd f
after_disk h c (ok (pos n)) w before f = ground (arith, (delete_rows-disk h c).kept w)

-- For any candidate, whatever fails on the way: the reported bytes are at most the bytes by which
-- the files under the store root have shrunk; and if it fails, they have not grown.
pub delete_cleanup_candidate-Frees :
    (h : Handler) (c : CleanupCandidate) (w : World)
    → FreesFor
        (delete_cleanup_candidate h c w).0
        (usage w.disk)
        (usage (delete_cleanup_candidate h c w).1.disk)
unfolding delete_cleanup_candidate
delete_cleanup_candidate-Frees h c w =
    after_disk h c (delete_on_disk c.file_path w).0 (delete_on_disk c.file_path w).1 (usage w.disk)
      (delete_on_disk-Frees c.file_path w)
