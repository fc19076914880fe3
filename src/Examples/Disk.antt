-- ===== src/Examples/Disk.antt =====
-- A cleanup with a retention, and a check of the videos.
use fetch_bilibili.Prelude.{false, ◌≡◌, refl, arith, some, [], inr}
use fetch_bilibili.Prelude.Int.{pos}
use fetch_bilibili.World.{ok, World}
use fetch_bilibili.Repo.Models.{VideoState, downloaded}
use fetch_bilibili.Repo.Payload.{payload_int64}
use fetch_bilibili.Repo.Videos.States.{state_of}
use fetch_bilibili.Worker.Handler.{Handler}
use fetch_bilibili.Worker.Deletion.{find_file}
use fetch_bilibili.Worker.Download.{positive}
use fetch_bilibili.Worker.Cleanup.{handle_cleanup}
use fetch_bilibili.Worker.Cleanup.Spared.{cleanup_spares}
use fetch_bilibili.Worker.Check.{handle_check, answered}
use fetch_bilibili.Worker.Check.Decides.{decided, answered-decided}
use fetch_bilibili.Worker.Check.States.{MayBe}
use fetch_bilibili.Worker.Check.Outcome.{names, handle_check_states}
use fetch_bilibili.Examples.Store.{calm, handler, full_store, video, insertion}

-- The file was made at 2, and the clock shows 9.
abbrev at_nine : World
at_nine = record full_store { outside = record calm { clock = λ n. 9 } }

abbrev patient : Handler
patient = record handler { cleanup_retention = pos 100 }

cleanup_spares_example :
    find_file "/data/store/bilibili/BV1.mp4" (handle_cleanup insertion patient at_nine).1.disk
    ≡ some 150
cleanup_spares_example =
    cleanup_spares insertion patient "/data/store/bilibili/BV1.mp4" at_nine
      (inr (100, omega arith, refl, λ n. refl))

handle_check_states_example :
    (t : VideoState) × (state_of 1 (handle_check handler [] full_store).1.videos ≡ some t)
    × MayBe handler full_store.outside
        (names (positive (payload_int64 full_store.outside.parse_int [] "video_id")) 1)
        (video 1 downloaded)
        t
handle_check_states_example =
    handle_check_states handler [] (video 1 downloaded) full_store (refl, refl)

-- The platform has answered that video 1 is not there.
answered-decided_example :
    state_of 1 (answered handler 9 (pos 0) (video 1 downloaded) (ok false) full_store).1.videos
    ≡ some (decided (pos 0) false (video 1 downloaded))
answered-decided_example =
    answered-decided handler 9 (pos 0) false (video 1 downloaded) full_store refl refl
