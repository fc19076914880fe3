-- ===== src/World.antt =====
-- What the operations of the worker read and write: the tables, the files under the store root, and
-- the published events; and the outside, which decides when a call of the database or the file
-- system fails, what the platform answers, and what the clock shows. An operation returns its
-- result and the new world, which it keeps when it fails.
use Prim.Native.String.{String}
use fetch_bilibili.Prelude.{ℕ, suc, Bool, Option, none, some, List, [], ◌∷◌, ◌++◌}
use fetch_bilibili.Prelude.Int.{ℤ}
use fetch_bilibili.Worker.Limiter.{Limiter}
use fetch_bilibili.Repo.Models.{
  Video, VideoFile, Creator, Job, CandidateCreator, CandidateCreatorSource,
  CandidateCreatorScoreDetail, VideoMeta,
}

pub data Error : Type 0 where
  -- os.IsNotExist, sql.ErrNoRows and context.Canceled.
  not_exist no_rows canceled : Error
  -- MySQL's strict mode refuses a value that the column's ENUM does not list.
  data_truncated : Error
  -- A permanent failure of the platform, with its code.
  permanent : ℤ → Error
  -- Any other failure of a call, by number.
  other : ℕ → Error
  -- The program's own errors.
  not_initialized no_root_dir no_video_id no_file_record unknown_type : Error
  -- Cleanup ran out of candidates; or it did, and this was the last error.
  too_few_candidates : Error
  target_missed : Error → Error
  -- The repositories' ErrNotFound and ErrConflict, and ErrJobAlreadyActive of the jobs.
  not_found conflict : Error
  -- A second row with the same key, and a row without the row that it belongs to.
  duplicate_key no_parent : Error
  job_already_active : Error
  -- A creator without uid and name, a patch or deletion that is not valid, a candidate whose status
  -- does not allow the change, and a resolver that is not there.
  no_uid_or_name invalid_patch invalid_delete bad_transition no_resolver : Error
  -- The file record was not saved, for this reason.
  record_not_saved : Error → Error

pub data Result (A : Type 0) : Type 0 where
  ok : A → Result A
  err : Error → Result A

-- A regular file under the store root.
pub record DiskFile : Type 0 where
  pub path : String
  pub size : ℕ

-- What is published, with its time: a video with its new state, the storage figures, a creator or
-- a job.
pub data Event : Type 0 where
  video_changed : (at : ℕ) → Video → Event
  storage_changed : (at : ℕ) (used files rare percent : ℤ) → Event
  creator_changed : (at : ℕ) → Creator → Event
  job_changed : (at : ℕ) → Job → Event

pub record Outside : Type 0 where
  -- The failure of the n-th call, if it fails.
  pub fault : ℕ → Option Error
  pub clock : ℕ → ℕ
  -- The platform's answers at the n-th call: whether a video is available, and a download's
  -- reported size and the size of the file that it leaves.
  pub available : ℕ → String → Result Bool
  pub download : ℕ → String → Result (ℤ × ℕ)
  -- Its answers to a listing of a creator's videos, to a search for a creator by name, with the id
  -- and the name, and to a question for the name of an id.
  pub list_videos : ℕ → String → Result (List VideoMeta)
  pub resolve_uid : ℕ → String → Result (String × String)
  pub resolve_name : ℕ → String → Result String
  -- strings.TrimSpace, filepath.Join and strconv.ParseInt.
  pub trim : String → String
  pub join : List String → String
  pub parse_int : String → Option ℤ
  -- CAST(… AS UNSIGNED) of a text, in MySQL.
  pub cast_unsigned : String → ℕ
  -- Whether MySQL's LIKE finds a text, with % before and behind it, in another one.
  pub is_like : String → String → Bool
  -- MySQL's comparison of two texts under the tables' collation.
  pub same_text : String → String → Bool

-- storageSnapshot of internal/worker/handler.go.
pub record StorageSnapshot : Type 0 where
  pub initialized : Bool
  pub used_bytes : ℤ
  pub file_count : ℤ
  pub rare_videos : ℤ
  pub dirty_rare : Bool

pub record World : Type 0 where
  pub outside : Outside
  pub calls : ℕ
  pub global_limit : Option Limiter
  pub per_limiters : List (ℕ × Limiter)
  pub snapshot : StorageSnapshot
  pub videos : List Video
  pub files : List VideoFile
  pub next_file_id : ℕ
  pub creators : List Creator
  pub jobs : List Job
  pub candidates : List CandidateCreator
  pub candidate_sources : List CandidateCreatorSource
  pub score_details : List CandidateCreatorScoreDetail
  -- The next id of each table, AUTO_INCREMENT.
  pub next_video_id : ℕ
  pub next_creator_id : ℕ
  pub next_job_id : ℕ
  pub next_candidate_id : ℕ
  pub next_source_id : ℕ
  pub next_detail_id : ℕ
  pub disk : List DiskFile
  pub published : List Event

abbrev pub M : Type 0 → Type 0
M A = World → Result A × World

abbrev pub next : {A B : Type 0} → Result A × World → (A → M B) → Result B × World
next (ok a, w) f = f a w
next (err e, w) f = (err e, w)

infixl 5 ◌>>=◌ ◌>>◌
abbrev pub ◌>>=◌ : {A B : Type 0} → M A → (A → M B) → M B
◌>>=◌ m f w = next (m w) f

abbrev pub ◌>>◌ : {B : Type 0} → M (Unit {0}) → M B → M B
m >> k = m >>= λ _. k

abbrev pub return : {A : Type 0} → A → M A
return a w = (ok a, w)

abbrev pub throw : {A : Type 0} → Error → M A
throw e w = (err e, w)

-- A call of the outside: it fails, or the given change is made.
abbrev pub answer : {A : Type 0} → Option Error → M A → M A
answer none m w = m w
answer (some e) m w = (err e, w)

unfoldable pub call : {A : Type 0} → M A → M A
call m w = answer (w.outside.fault w.calls) m (record w { calls = suc w.calls })

-- The result as a value, to go on after a failure.
abbrev pub attempt : {A : Type 0} → M A → M (Result A)
attempt m w = (ok (m w).0, (m w).1)

unfoldable pub now : M ℕ
now w = (ok (w.outside.clock w.calls), record w { calls = suc w.calls })

unfoldable pub publish : Event → M (Unit {0})
publish evt w = (ok tt, record w { published = w.published ++ evt ∷ [] })
