-- ===== src/Worker/Publishing.antt =====
-- internal/worker/handler.go: publishVideoChanged and shouldPublishVideoChanged.
use package.text.Mathlib.Text.{◌==◌ as str_eq}
use fetch_bilibili.Prelude.{◌==◌, Bool, true, false, not, ◌&&◌, if◌then◌else◌}
use fetch_bilibili.World.{M, ◌>>=◌, return, now, publish, video_changed}
use fetch_bilibili.Repo.Models.{Video, VideoState, out_of_print, stable, deleted}
use fetch_bilibili.Repo.Videos.{same_state}
use fetch_bilibili.Worker.Handler.{Handler}

abbrev with_platform : Video → Video
with_platform v = if str_eq v.platform "" then record v { platform = "bilibili" } else v

unfoldable pub publish_video_changed : Handler → Video → M (Unit {0})
publish_video_changed h v = if not h.has_publisher then return tt else (do
  at ← now
  publish (video_changed (if v.updated_at == 0 then at else v.updated_at) (with_platform v)))

abbrev announced : VideoState → Bool
announced out_of_print = true
announced stable = true
announced deleted = true
announced _ = false

unfoldable pub should_publish_video_changed : VideoState → VideoState → Bool
should_publish_video_changed prev next = not (same_state prev next) && announced next
