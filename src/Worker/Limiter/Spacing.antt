-- ===== src/Worker/Limiter/Spacing.antt =====
-- The limiter keeps its rate, whatever the times at which calls come in.
use native.Mathlib.Nat.{zero-add, suc-add}
use mathlib.Core.Path.{subst, subst₂}
use fetch_bilibili.Prelude.{
  ℕ, zero, suc, ◌+◌, ◌-◌, ◌*◌, ◌/◌, ◌≤◌, ◌<◌, ◌≡◌, arith, Option, none, some, List, [], ◌∷◌,
}
use fetch_bilibili.Prelude.Int.{ℤ, pos_part, i64_half}
use fetch_bilibili.Worker.Limiter.{Limiter, second, new_limiter, reserve, grants}

-- The waits of the calls at these times stay below the largest Duration, about 292 years.
abbrev pub InTime : Limiter → List ℕ → Type 0
InTime l [] = Unit
InTime l (now ∷ rest) = (l.last + l.interval < now + i64_half) × InTime (reserve l now).0 rest

-- The grants from the second on lie the given number of intervals behind the first.
abbrev pub Spaced : ℕ → ℕ → List ℕ → Type 0
Spaced interval from [] = Unit
Spaced interval from (g ∷ rest) = (from ≤ g) × Spaced interval (g + interval) rest

-- A call that is reserved goes on no earlier than it came in, at the first moment that lies an
-- interval behind the grant before it.
pub reserve_lem :
    (l : Limiter) (now : ℕ)
    → 0 < l.interval
    → l.last + l.interval < now + i64_half
    → ((reserve l now).0.last ≡ now + (reserve l now).1)
      × (l.last + l.interval ≤ (reserve l now).0.last)
      × ((reserve l now).1 ≡ l.last + l.interval - now)
      × ((reserve l now).0.interval ≡ l.interval)
unfolding reserve
reserve_lem l now h k = ground arith

Spaced-cast :
    (i j x y : ℕ) (gs : List ℕ) → i ≡ j → x ≡ y → Spaced i (x + i) gs → Spaced j (y + j) gs
Spaced-cast i j x y gs p q h = subst₂ (λ a b. Spaced a (b + a) gs) p q h

grants-Spaced :
    (l : Limiter) (nows : List ℕ)
    → 0 < l.interval
    → InTime l nows
    → Spaced l.interval (l.last + l.interval) (grants l nows)
unfolding grants
grants-Spaced l [] h k = tt
grants-Spaced l (now ∷ rest) h k =
    let (last, spaced, wait, same) = reserve_lem l now h k.0 in
    (
      omega (arith, last, spaced),
      Spaced-cast (reserve l now).0.interval l.interval (reserve l now).0.last
          (now + (reserve l now).1) (grants (reserve l now).0 rest) same last
          (grants-Spaced (reserve l now).0 rest (omega (arith, same)) k.1),
    )

abbrev pub get_elem? : List ℕ → ℕ → Option ℕ
get_elem? [] i = none
get_elem? (x ∷ xs) zero = some x
get_elem? (x ∷ xs) (suc i) = get_elem? xs i

Spaced-later :
    (interval from : ℕ) (gs : List ℕ) (k g : ℕ)
    → Spaced interval from gs
    → get_elem? gs k ≡ some g
    → from + k * interval ≤ g
Spaced-later interval from [] k g h e = cc
Spaced-later interval from (x ∷ xs) zero g h e = ground arith
Spaced-later interval from (x ∷ xs) (suc k) g h e =
    grind (arith, Spaced-later interval (x + interval) xs k g h.1 e)

Spaced-apart :
    (interval from : ℕ) (gs : List ℕ) (i k f g : ℕ)
    → Spaced interval from gs
    → get_elem? gs i ≡ some f
    → get_elem? gs (i + k) ≡ some g
    → f + k * interval ≤ g
Spaced-apart interval from [] i k f g h e e' = cc
Spaced-apart interval from (x ∷ xs) zero zero f g h e e' = ground arith
Spaced-apart interval from (x ∷ xs) zero (suc k) f g h e e' =
    grind (arith, Spaced-later interval (x + interval) xs k g h.1 (rw zero-add at e'))
Spaced-apart interval from (x ∷ xs) (suc i) k f g h e e' =
    Spaced-apart interval (x + interval) xs i k f g h.1 e (rw suc-add at e')

interval_of :
    (qps : ℤ) (l : Limiter) → new_limiter qps ≡ some l → l.interval ≡ second / pos_part qps
unfolding new_limiter
interval_of qps l made = ground arith

-- However the calls come in, if none waits longer than the largest Duration: the k-th call after a
-- call goes on at least k intervals after it. For a rate of qps calls per second the interval is
-- 10^9 / qps nanoseconds, rounded down.
pub limiter_rate :
    (qps : ℤ) (l : Limiter) (nows : List ℕ) (i k f g : ℕ)
    → new_limiter qps ≡ some l
    → 0 < l.interval
    → InTime l nows
    → get_elem? (grants l nows) i ≡ some f
    → get_elem? (grants l nows) (i + k) ≡ some g
    → f + k * (second / pos_part qps) ≤ g
limiter_rate qps l nows i k f g made h t e e' =
    subst (λ n. f + k * n ≤ g) (interval_of qps l made)
      (Spaced-apart l.interval (l.last + l.interval) (grants l nows) i k f g
        (grants-Spaced l nows h t) e e')
