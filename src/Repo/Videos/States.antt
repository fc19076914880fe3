-- ===== src/Repo/Videos/States.antt =====
-- The state of one video under the statements that write it.
use fetch_bilibili.Prelude.{ℕ, suc, ◌≡◌, arith, true, Option, none, some, List, [], ◌∷◌, ◌⊎◌}
use fetch_bilibili.World.{Error, ok, err, World, call}
use fetch_bilibili.Repo.Models.{VideoState, Video}
use fetch_bilibili.Repo.Videos.{find_video, update_videos, update_state, column_accepts}

abbrev pub state_in : Option Video → Option VideoState
state_in none = none
state_in (some v) = some v.state

abbrev pub state_of : ℕ → List Video → Option VideoState
state_of id vs = state_in (find_video id vs)

state_of-update :
    (id : ℕ) (s : VideoState) (at : ℕ) (vs : List Video) (t : VideoState)
    → state_of id vs ≡ some t
    → state_of id (update_videos id (λ v. record v { state = s; updated_at = at }) vs) ≡ some s
state_of-update id s at [] t e = cc
state_of-update id s at (v ∷ rest) t e = ground (arith, state_of-update id s at rest t)

-- Writing the state of a video that is there: it is written and its column accepts it, or the
-- statement fails and the state is as it was.
pub update_state_lem :
    (id : ℕ) (s t : VideoState) (w : World)
    → state_of id w.videos ≡ some t
    → ((state_of id (update_state id s w).1.videos ≡ some s)
        × ((update_state id s w).0 ≡ ok tt)
        × (column_accepts s ≡ true))
      ⊎ ((e : Error) × (state_of id (update_state id s w).1.videos ≡ some t)
          × ((update_state id s w).0 ≡ err e))
unfolding update_state call
update_state_lem id s t w e =
    ground (arith, state_of-update id s (w.outside.clock (suc w.calls)) w.videos t e)
