-- ===== src/Worker/Waiting.antt =====
-- internal/worker/limiter.go, Wait, and internal/worker/handler.go, waitForCreator and
-- getCreatorLimiter. The wait itself is a call that fails if the context ends first.
use fetch_bilibili.Prelude.{ℕ, ◌==◌, ◌||◌, ◌≡◌, Option, none, some, List, [], ◌∷◌, if◌then◌else◌}
use fetch_bilibili.Prelude.Int.{pos, leb_ℤ}
use fetch_bilibili.World.{ok, World, M, ◌>>=◌, ◌>>◌, return, call, now}
use fetch_bilibili.Effects.{
  Keeps, Keeps-bind, Keeps-if, Keeps-return, IsStore, Keeps-call, Keeps-now,
}
use fetch_bilibili.Worker.Handler.{Handler}
use fetch_bilibili.Worker.Limiter.{Limiter, new_limiter, reserve}

abbrev update_world : (World → World) → M (Unit {0})
update_world f w = (ok tt, f w)

-- Wait on a limiter, which `store` puts back.
pub wait : (Limiter → World → World) → Limiter → M (Unit {0})
unfolding call now reserve
wait store l = if l.interval == 0 then return tt else (do
  t ← now
  update_world (store (reserve l t).0)
  if (reserve l t).1 == 0 then return tt else call (return tt))

abbrev put_global : Limiter → World → World
put_global l w = record w { global_limit = some l }

abbrev wait_global : Option Limiter → M (Unit {0})
wait_global none = return tt
wait_global (some l) = wait put_global l

abbrev per_limiter : ℕ → List (ℕ × Limiter) → Option Limiter
per_limiter id [] = none
per_limiter id ((j, l) ∷ rest) =
    let later = per_limiter id rest in if j == id then some l else later

abbrev put_per : ℕ → Limiter → List (ℕ × Limiter) → List (ℕ × Limiter)
put_per id l [] = (id, l) ∷ []
put_per id l ((j, k) ∷ rest) =
    let later = put_per id l rest in if j == id then (id, l) ∷ rest else (j, k) ∷ later

abbrev put_creator : ℕ → Limiter → World → World
put_creator id l w = record w { per_limiters = put_per id l w.per_limiters }

abbrev wait_creator : ℕ → Option Limiter → Option Limiter → M (Unit {0})
wait_creator id (some l) fresh = wait (put_creator id) l
wait_creator id none (some l) = wait (put_creator id) l
wait_creator id none none = return tt

unfoldable pub wait_for_creator : Handler → ℕ → M (Unit {0})
wait_for_creator h id = do
  (λ w. wait_global w.global_limit w)
  (if leb_ℤ h.per_limit_qps (pos 0) || (id == 0)
      then return tt
      else (λ w. wait_creator id (per_limiter id w.per_limiters) (new_limiter h.per_limit_qps) w))

module _ {S : Type 0} {part : World → S} (i : IsStore part) where
  wait-Keeps :
      (store : Limiter → World → World) (l : Limiter)
      → ((k : Limiter) (w : World) → part (store k w) ≡ part w)
      → Keeps part (wait store l)
  unfolding wait
  wait-Keeps store l f = Keeps-if part (l.interval == 0) _ _ (Keeps-return part tt) (
      Keeps-bind part _ _ (Keeps-now i) λ t.
        Keeps-bind part (update_world (store (reserve l t).0)) _
          (record { kept = λ w. f (reserve l t).0 w })
          λ _.
            Keeps-if part ((reserve l t).1 == 0) _ _ (Keeps-return part tt)
              (Keeps-call i _ (Keeps-return part tt)))

  wait_global-Keeps : (o : Option Limiter) → Keeps part (wait_global o)
  wait_global-Keeps none = Keeps-return part tt
  wait_global-Keeps (some l) = wait-Keeps put_global l (λ k w. i.no_global w (some k))

  wait_creator-Keeps : (id : ℕ) (o p : Option Limiter) → Keeps part (wait_creator id o p)
  wait_creator-Keeps id (some l) p =
      wait-Keeps (put_creator id) l (λ k w. i.no_limiters w (put_per id k w.per_limiters))
  wait_creator-Keeps id none (some l) =
      wait-Keeps (put_creator id) l (λ k w. i.no_limiters w (put_per id k w.per_limiters))
  wait_creator-Keeps id none none = Keeps-return part tt

  pub wait_for_creator-Keeps : (h : Handler) (id : ℕ) → Keeps part (wait_for_creator h id)
  unfolding wait_for_creator
  wait_for_creator-Keeps h id =
      Keeps-bind part (λ w. wait_global w.global_limit w) _
        (record { kept = λ w. (wait_global-Keeps w.global_limit).kept w })
        λ _.
          Keeps-if part (leb_ℤ h.per_limit_qps (pos 0) || (id == 0)) _ _ (Keeps-return part tt)
            (record {
              kept = λ w.
                  (wait_creator-Keeps id (per_limiter id w.per_limiters)
                      (new_limiter h.per_limit_qps)).kept
                    w;
            })
