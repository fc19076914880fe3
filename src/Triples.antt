-- ===== src/Triples.antt =====
-- Proof rules for operations that may fail: what holds before, after a success, and after a failure.
use fetch_bilibili.Prelude.{suc, Option, none, some, Bool, true, false, if◌then◌else◌, sym}
use mathlib.Core.Path.{subst}
use fetch_bilibili.World.{
  Error, Result, ok, err, World, M, next, ◌>>=◌, return, throw, answer, call, attempt,
}
use fetch_bilibili.Effects.{Keeps}

abbrev pub Ends : {A : Type 0} → (A → World → Type 0) → (World → Type 0) → Result A × World → Type 0
Ends post fail (ok a, w) = post a w
Ends post fail (err e, w) = fail w

pub record Triple {A : Type 0} (pre : World → Type 0) (m : M A) (post : A → World → Type 0)
    (fail : World → Type 0) : Type 0 where
  pub run : (w : World) → pre w → Ends post fail (m w)

module _ {A B : Type 0} where
  Ends-next :
      {mid : A → World → Type 0} {post : B → World → Type 0} {fail : World → Type 0} (r : Result A)
      (w : World) (f : A → M B)
      → Ends mid fail (r, w)
      → ((a : A) → Triple (mid a) (f a) post fail)
      → Ends post fail (next (r, w) f)
  Ends-next (ok a) w f e t = (t a).run w e
  Ends-next (err x) w f e t = e

  pub Triple-bind :
      {pre : World → Type 0} (mid : A → World → Type 0) {post : B → World → Type 0}
      {fail : World → Type 0} {m : M A} {f : A → M B}
      → Triple pre m mid fail
      → ((a : A) → Triple (mid a) (f a) post fail)
      → Triple pre (m >>= f) post fail
  Triple-bind mid {m = m} {f = f} t u = record {
    run = λ w p. Ends-next {mid = mid} (m w).0 (m w).1 f (t.run w p) u;
  }

module _ {A : Type 0} where
  pub Triple-return :
      {pre fail : World → Type 0} {post : A → World → Type 0} (a : A)
      → ((w : World) → pre w → post a w)
      → Triple pre (return a) post fail
  Triple-return a h = record { run = h }

  pub Triple-throw :
      {pre fail : World → Type 0} {post : A → World → Type 0} (e : Error)
      → ((w : World) → pre w → fail w)
      → Triple pre (throw e) post fail
  Triple-throw e h = record { run = h }

  -- After a caught failure the result says which of the two holds.
  pub Triple-attempt :
      {pre fail fail' : World → Type 0} {post : A → World → Type 0} {m : M A}
      → Triple pre m post fail
      → Triple pre (attempt m) (λ r w. Ends post fail (r, w)) fail'
  Triple-attempt t = record { run = t.run }

  Ends-both :
      (post : A → World → Type 0) (fail : World → Type 0) (r : Result A × World)
      → ((a : A) → post a r.1)
      → fail r.1
      → Ends post fail r
  Ends-both post fail (ok a, w) h k = h a
  Ends-both post fail (err e, w) h k = k

  -- What depends only on a part that the operation keeps, stays.
  pub Triple-keeps :
      {S : Type 0} (part : World → S) (P : S → Type 0) {m : M A}
      → Keeps part m
      → Triple (λ w. P (part w)) m (λ a w. P (part w)) (λ w. P (part w))
  Triple-keeps part P {m = m} k = record {
    run = λ w p.
        let q = subst P (sym (k.kept w)) p in
        Ends-both (λ a v. P (part v)) (λ v. P (part v)) (m w) (λ a. q) q;
  }

  pub Triple-weaken :
      {pre pre' : World → Type 0} {post post' : A → World → Type 0} {fail fail' : World → Type 0}
      {m : M A}
      → Triple pre m post fail
      → ((w : World) → pre' w → pre w)
      → ((a : A) (w : World) → post a w → post' a w)
      → ((w : World) → fail w → fail' w)
      → Triple pre' m post' fail'
  Triple-weaken {post = post} {post' = post'} {fail = fail} {fail' = fail'} {m = m} t f g h =
      record { run = λ w p. weaken (m w) (t.run w (f w p)) }
    where
      weaken : (r : Result A × World) → Ends post fail r → Ends post' fail' r
      weaken (ok a, w) e = g a w e
      weaken (err x, w) e = h w e

  -- The same, where a failure is caught.
  pub Triple-keeps_attempt :
      {S : Type 0} (part : World → S) (P : S → Type 0) {fail : World → Type 0} {m : M A}
      → Keeps part m
      → Triple (λ w. P (part w)) (attempt m) (λ r w. P (part w)) fail
  Triple-keeps_attempt part P k = record { run = λ w p. subst P (sym (k.kept w)) p }

-- A call of the database: what holds before it does not look at the counter of calls.
pub Triple-call :
    {A : Type 0} {pre fail : World → Type 0} {post : A → World → Type 0} (m : M A)
    → Triple pre m post fail
    → ((w : World)
        → pre w
        → pre (record w { calls = suc w.calls }) × fail (record w { calls = suc w.calls }))
    → Triple pre (call m) post fail
unfolding call
Triple-call {A} {pre} {fail} {post} m t c = record {
  run = λ w p. after (w.outside.fault w.calls) (record w { calls = suc w.calls }) (c w p);
}
  where
    after : (o : Option Error) (w : World) → pre w × fail w → Ends post fail (answer o m w)
    after none w p = t.run w p.0
    after (some e) w p = p.1

pub Triple-if :
    {A : Type 0} {pre fail : World → Type 0} {post : A → World → Type 0} {m k : M A} (b : Bool)
    → Triple pre m post fail
    → Triple pre k post fail
    → Triple pre (if b then m else k) post fail
Triple-if true t u = t
Triple-if false t u = u
