-- ===== src/Effects.antt =====
-- Proof rules for what an operation leaves as it was.
use fetch_bilibili.Prelude.{
  ℕ, suc, ◌≡◌, refl, ◌∙◌, Bool, true, false, Option, none, some, if◌then◌else◌, List, [], ◌∷◌, ◌++◌,
}
use fetch_bilibili.World.{
  Error, Result, ok, err, Event, World, M, next, ◌>>=◌, return, throw, call, answer, attempt, now,
  publish, StorageSnapshot,
}
use fetch_bilibili.Worker.Limiter.{Limiter}

-- The operation leaves the given part of the world as it was, whether it fails or not.
pub record Keeps {S A : Type 0} (part : World → S) (m : M A) : Type 0 where
  pub kept : (w : World) → part (m w).1 ≡ part w

module _ {S : Type 0} (part : World → S) where
  pub Keeps-return : {A : Type 0} (a : A) → Keeps part (return a)
  Keeps-return a = record { kept = λ w. refl }

  pub Keeps-throw : {A : Type 0} (e : Error) → Keeps part (throw {A = A} e)
  Keeps-throw e = record { kept = λ w. refl }

  next-part :
      {A B : Type 0} (f : A → M B) (r : Result A) (w : World)
      → ((a : A) → Keeps part (f a))
      → part (next (r, w) f).1 ≡ part w
  next-part f (ok a) w h = (h a).kept w
  next-part f (err e) w h = refl

  pub Keeps-bind :
      {A B : Type 0} (m : M A) (f : A → M B)
      → Keeps part m
      → ((a : A) → Keeps part (f a))
      → Keeps part (m >>= f)
  Keeps-bind m f h k = record { kept = λ w. next-part f (m w).0 (m w).1 k ∙ h.kept w }

  pub Keeps-if :
      {A : Type 0} (b : Bool) (m k : M A)
      → Keeps part m
      → Keeps part k
      → Keeps part (if b then m else k)
  Keeps-if true m k h g = h
  Keeps-if false m k h g = g

  pub Keeps-attempt : {A : Type 0} (m : M A) → Keeps part m → Keeps part (attempt m)
  Keeps-attempt m h = record { kept = λ w. h.kept w }

-- The part does not look at the counter of calls, the limiters, the figures and the events.
pub record IsStore {S : Type 0} (part : World → S) : Type 0 where
  pub no_calls : (w : World) (n : ℕ) → part (record w { calls = n }) ≡ part w
  pub no_snapshot : (w : World) (s : StorageSnapshot) → part (record w { snapshot = s }) ≡ part w
  pub no_events : (w : World) (es : List Event) → part (record w { published = es }) ≡ part w
  pub no_global : (w : World) (l : Option Limiter) → part (record w { global_limit = l }) ≡ part w
  pub no_limiters :
      (w : World) (ls : List (ℕ × Limiter)) → part (record w { per_limiters = ls }) ≡ part w

pub disk-IsStore : IsStore (λ w. w.disk)
disk-IsStore = record {
  no_calls = λ w n. refl;
  no_snapshot = λ w s. refl;
  no_events = λ w es. refl;
  no_global = λ w l. refl;
  no_limiters = λ w ls. refl;
}

pub videos-IsStore : IsStore (λ w. w.videos)
videos-IsStore = record {
  no_calls = λ w n. refl;
  no_snapshot = λ w s. refl;
  no_events = λ w es. refl;
  no_global = λ w l. refl;
  no_limiters = λ w ls. refl;
}

pub files-IsStore : IsStore (λ w. w.files)
files-IsStore = record {
  no_calls = λ w n. refl;
  no_snapshot = λ w s. refl;
  no_events = λ w es. refl;
  no_global = λ w l. refl;
  no_limiters = λ w ls. refl;
}

module _ {S : Type 0} {part : World → S} (i : IsStore part) where
  answer-part :
      {A : Type 0} (o : Option Error) (m : M A) (w : World)
      → Keeps part m
      → part (answer o m w).1 ≡ part w
  answer-part none m w k = k.kept w
  answer-part (some e) m w k = refl

  pub Keeps-call : {A : Type 0} (m : M A) → Keeps part m → Keeps part (call m)
  unfolding call
  Keeps-call m k = record {
    kept = λ w.
        answer-part (w.outside.fault w.calls) m (record w { calls = suc w.calls }) k
        ∙ i.no_calls w (suc w.calls);
  }

  pub Keeps-now : Keeps part now
  unfolding now
  Keeps-now = record { kept = λ w. i.no_calls w (suc w.calls) }

  pub Keeps-publish : (e : Event) → Keeps part (publish e)
  unfolding publish
  Keeps-publish e = record { kept = λ w. i.no_events w (w.published ++ e ∷ []) }
