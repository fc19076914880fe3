-- ===== src/Worker/Handler.antt =====
-- internal/worker/handler.go: the fields of DefaultHandler that stay as they are while jobs run.
-- A repository, client or publisher that may be nil is given by whether it is there.
use Prim.Native.String.{String}
use fetch_bilibili.Prelude.{Bool}
use fetch_bilibili.Prelude.Int.{ℤ}

pub record Handler : Type 0 where
  pub has_creators : Bool
  pub has_videos : Bool
  pub has_video_files : Bool
  pub has_jobs : Bool
  pub has_client : Bool
  pub has_publisher : Bool
  pub has_discovery_runner : Bool
  pub storage_root : String
  pub stable_days : ℤ
  pub fetch_limit : ℤ
  pub check_limit : ℤ
  pub per_limit_qps : ℤ
  pub storage_max : ℤ
  pub storage_safe : ℤ
  pub keep_rare : Bool
  pub cleanup_retention : ℤ
  pub cleanup_limit : ℤ
