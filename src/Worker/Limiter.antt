-- ===== src/Worker/Limiter.antt =====
-- internal/worker/limiter.go: newLimiter, and the part of Wait that runs under the mutex, which
-- reserves the next free moment. Times are in nanoseconds; 0 is the zero time of a new limiter.
use fetch_bilibili.Prelude.{
  ℕ, zero, suc, ◌+◌, ◌-◌, ◌*◌, ◌/◌, ◌≤◌, ◌<◌, ◌≡◌, refl, arith, ltb, leb, ◌==◌, Bool, true, false,
  Option, none, some, List, [], ◌∷◌, if◌then◌else◌, All,
}
use fetch_bilibili.Prelude.Int.{ℤ, pos, pos_part, leb_ℤ, i64_half}
pub mod Spacing

pub record Limiter : Type 0 where
  pub interval : ℕ
  pub last : ℕ

abbrev pub second : ℕ
second = 1000000000

-- No limiter for a rate that is not positive.
unfoldable pub new_limiter : ℤ → Option Limiter
new_limiter qps =
    if leb_ℤ qps (pos 0) then none else some (record { interval = second / pos_part qps; last = 0 })

-- `a.Sub(b)` where the code then takes 0 for what is negative: time.Time.Sub saturates at the
-- largest Duration.
abbrev pub sub_time : ℕ → ℕ → ℕ
sub_time a b = if leb i64_half (a - b) then i64_half - 1 else a - b

-- The limiter after a call at the given time, and how long that call waits.
unfoldable pub reserve : Limiter → ℕ → Limiter × ℕ
reserve l now =
    if l.interval == 0
    then (l, 0)
    else (let wait = sub_time (l.last + l.interval) now in (record l { last = now + wait }, wait))

-- The moments at which calls that come in at the given times may go on.
unfoldable pub grants : Limiter → List ℕ → List ℕ
grants l [] = []
grants l (now ∷ rest) = (now + (reserve l now).1) ∷ grants (reserve l now).0 rest
