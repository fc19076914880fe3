-- ===== src/Repo/Models.antt =====
-- internal/repo/models.go, internal/jobs/types.go and the VideoMeta of
-- internal/platform/bilibili/types.go: the records, with the states, job types and job statuses as
-- enumerations of the texts that the program writes. The status of a creator may come from outside
-- and is a text. A time is in nanoseconds, and 0 is Go's zero time, which stands for NULL in the
-- tables.
use Prim.Native.String.{String}
use fetch_bilibili.Prelude.{ℕ, Bool, Option, List}
use fetch_bilibili.Prelude.Int.{ℤ}
use fetch_bilibili.Repo.Payload.{Payload}

pub data VideoState : Type 0 where
  new downloading downloaded out_of_print stable deleted failed : VideoState

pub VideoState-discrete : Discrete VideoState
VideoState-discrete = hlevel

pub record Video : Type 0 where
  pub id : ℕ
  pub platform : String
  pub video_id : String
  pub creator_id : ℕ
  pub title : String
  pub description : String
  pub publish_time : ℕ
  pub duration : ℕ
  pub cover_url : String
  pub view_count : ℤ
  pub favorite_count : ℤ
  pub state : VideoState
  pub out_of_print_at : ℕ
  pub stable_at : ℕ
  pub last_check_at : ℕ
  pub created_at : ℕ
  pub updated_at : ℕ

pub data FileType : Type 0 where
  unset video cover subtitle other : FileType

pub record VideoFile : Type 0 where
  pub id : ℕ
  pub video_id : ℕ
  pub path : String
  pub size_bytes : ℤ
  pub checksum : String
  pub type : FileType
  pub created_at : ℕ

pub record CleanupCandidate : Type 0 where
  pub video_id : ℕ
  pub source_video_id : String
  pub platform : String
  pub title : String
  pub state : VideoState
  pub creator_id : ℕ
  pub creator_name : String
  pub creator_follower_count : ℤ
  pub view_count : ℤ
  pub favorite_count : ℤ
  pub file_id : ℕ
  pub file_path : String
  pub file_size_bytes : ℤ
  pub file_created_at : ℕ

pub record CleanupCandidateFilter : Type 0 where
  pub limit : ℤ
  pub include_out_of_print : Bool

pub record Creator : Type 0 where
  pub id : ℕ
  pub platform : String
  pub uid : String
  pub name : String
  pub follower_count : ℤ
  pub local_video_count : ℤ
  pub storage_bytes : ℤ
  pub status : String
  pub created_at : ℕ
  pub updated_at : ℕ

pub data JobType : Type 0 where
  fetch download check cleanup discover : JobType
  other : String → JobType

pub data JobStatus : Type 0 where
  queued running success failed : JobStatus

pub record Job : Type 0 where
  pub id : ℕ
  pub type : JobType
  pub status : JobStatus
  pub payload : Payload
  pub error_msg : String
  pub not_before : ℕ
  pub started_at : ℕ
  pub finished_at : ℕ
  pub created_at : ℕ
  pub updated_at : ℕ

pub record VideoListFilter : Type 0 where
  pub limit : ℤ
  pub creator_id : ℤ
  pub state : Option VideoState

pub record JobListFilter : Type 0 where
  pub limit : ℤ
  pub status : Option JobStatus
  pub type : Option JobType

pub record LibraryVideo : Type 0 where
  pub video : Video
  pub file_path : String
  pub size_bytes : ℤ

pub data CandidateStatus : Type 0 where
  unset new reviewing approved ignored blocked : CandidateStatus

pub record CandidateCreator : Type 0 where
  pub id : ℕ
  pub platform : String
  pub uid : String
  pub name : String
  pub avatar_url : String
  pub profile_url : String
  pub follower_count : ℤ
  pub status : CandidateStatus
  pub score : ℤ
  pub score_version : String
  pub last_discovered_at : ℕ
  pub last_scored_at : ℕ
  pub approved_at : ℕ
  pub ignored_at : ℕ
  pub blocked_at : ℕ
  pub created_at : ℕ
  pub updated_at : ℕ

-- The JSON text of a source is not looked into.
pub record CandidateCreatorSource : Type 0 where
  pub id : ℕ
  pub candidate_creator_id : ℕ
  pub source_type : String
  pub source_value : String
  pub source_label : String
  pub weight : ℤ
  pub detail_json : String
  pub created_at : ℕ

-- What a factor of the score is stored with, before it is encoded as JSON.
pub data DetailJson : Type 0 where
  keywords : List String → DetailJson
  video_count : ℤ → DetailJson
  level : String → DetailJson
  hits : List String → DetailJson
  follower_count ignore_count : ℤ → DetailJson

pub record CandidateCreatorScoreDetail : Type 0 where
  pub id : ℕ
  pub candidate_creator_id : ℕ
  pub factor_key : String
  pub factor_label : String
  pub score_delta : ℤ
  pub detail_json : DetailJson
  pub created_at : ℕ

-- What the platform lists of a video.
pub record VideoMeta : Type 0 where
  pub video_id : String
  pub title : String
  pub description : String
  pub publish_time : ℕ
  pub duration : ℕ
  pub cover_url : String
  pub view_count : ℤ
  pub favorite_count : ℤ
