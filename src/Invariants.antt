-- ===== src/Invariants.antt =====
-- Proof rules for what holds before an operation and after it, whether it fails or not.
use fetch_bilibili.Prelude.{
  ℕ, suc, Bool, true, false, Option, none, some, List, [], ◌∷◌, ◌++◌, if◌then◌else◌,
}
use fetch_bilibili.World.{
  Error, Result, ok, err, Event, World, M, next, ◌>>=◌, return, throw, answer, call, attempt, now,
  publish,
}
use fetch_bilibili.Triples.{Ends, Triple}

pub record Preserves {A : Type 0} (P : World → Type 0) (m : M A) : Type 0 where
  pub holds : (w : World) → P w → P (m w).1

-- The invariant does not look at the counter of calls and at the events.
pub record IsAboutTables (P : World → Type 0) : Type 0 where
  pub no_calls : (w : World) (n : ℕ) → P w → P (record w { calls = n })
  pub no_events : (w : World) (es : List Event) → P w → P (record w { published = es })

module _ (P : World → Type 0) where
  pub Preserves-return : {A : Type 0} (a : A) → Preserves P (return a)
  Preserves-return a = record { holds = λ w p. p }

  pub Preserves-throw : {A : Type 0} (e : Error) → Preserves P (throw {A = A} e)
  Preserves-throw e = record { holds = λ w p. p }

  next-holds :
      {A B : Type 0} (f : A → M B) (r : Result A) (w : World)
      → ((a : A) → Preserves P (f a))
      → P w
      → P (next (r, w) f).1
  next-holds f (ok a) w k p = (k a).holds w p
  next-holds f (err e) w k p = p

  pub Preserves-bind :
      {A B : Type 0} (m : M A) (f : A → M B)
      → Preserves P m
      → ((a : A) → Preserves P (f a))
      → Preserves P (m >>= f)
  Preserves-bind m f h k = record { holds = λ w p. next-holds f (m w).0 (m w).1 k (h.holds w p) }

  pub Preserves-if :
      {A : Type 0} (b : Bool) (m k : M A)
      → Preserves P m
      → Preserves P k
      → Preserves P (if b then m else k)
  Preserves-if true m k h g = h
  Preserves-if false m k h g = g

  pub Preserves-attempt : {A : Type 0} (m : M A) → Preserves P m → Preserves P (attempt m)
  Preserves-attempt m h = record { holds = λ w p. h.holds w p }

module _ {P : World → Type 0} (t : IsAboutTables P) where
  answer-holds :
      {A : Type 0} (o : Option Error) (m : M A) (w : World)
      → Preserves P m
      → P w
      → P (answer o m w).1
  answer-holds none m w h p = h.holds w p
  answer-holds (some e) m w h p = p

  pub Preserves-call : {A : Type 0} (m : M A) → Preserves P m → Preserves P (call m)
  unfolding call
  Preserves-call m h = record {
    holds = λ w p.
        answer-holds (w.outside.fault w.calls) m (record w { calls = suc w.calls }) h
          (t.no_calls w (suc w.calls) p);
  }

  -- A call that asks only.
  pub Preserves-ask : {A : Type 0} (f : World → Result A) → Preserves P (call (λ w. (f w, w)))
  Preserves-ask f = Preserves-call (λ w. (f w, w)) (record { holds = λ w p. p })

  pub Preserves-now : Preserves P now
  unfolding now
  Preserves-now = record { holds = λ w p. t.no_calls w (suc w.calls) p }

  pub Preserves-publish : (e : Event) → Preserves P (publish e)
  unfolding publish
  Preserves-publish e = record { holds = λ w p. t.no_events w (w.published ++ e ∷ []) p }

-- An invariant as a rule of the other kind.
pub Triple-preserves :
    {A : Type 0} (P : World → Type 0) {m : M A} → Preserves P m → Triple P m (λ a. P) P
Triple-preserves {A} P {m = m} h = record { run = λ w p. ends (m w) (h.holds w p) }
  where
    ends : (r : Result A × World) → P r.1 → Ends (λ a. P) P r
    ends (ok a, w) p = p
    ends (err e, w) p = p

pub Preserves-of :
    {A : Type 0} (P : World → Type 0) {m : M A} → Triple P m (λ a. P) P → Preserves P m
Preserves-of {A} P {m = m} t = record { holds = λ w p. holds_of (m w) (t.run w p) }
  where
    holds_of : (r : Result A × World) → Ends (λ a. P) P r → P r.1
    holds_of (ok a, w) p = p
    holds_of (err e, w) p = p
