-- ===== src/Library/Syncer/Invariant.antt =====
-- The sets of the Syncer against what the two goroutines hold, over every interleaving.
use fetch_bilibili.Prelude.{
  ℕ, ◌+◌, ◌≤◌, ◌≡◌, arith, ◌==◌, Bool, true, false, some, List, [], ◌∷◌, ◌++◌, length,
  length-append, tally, tally-append, if◌then◌else◌, inl, inr, Option-cases,
}
use fetch_bilibili.Prelude.Int.{pos_part}
use fetch_bilibili.Library.Syncer.{
  Producer, idle, sending, Consumer, received, rebuilding, resending, Syncer, new_syncer, Action,
  request, send, receive, begin, finish, resend, step, run,
}

-- How often `c` is on its way to the worker: in the channel, or held by a goroutine.
abbrev pub held_by_producer : ℕ → Producer → ℕ
held_by_producer c idle = 0
held_by_producer c (sending d) = if d == c then 1 else 0

abbrev pub held_by_consumer : ℕ → Consumer → ℕ
held_by_consumer c (received d) = if d == c then 1 else 0
held_by_consumer c (resending d) = if d == c then 1 else 0
held_by_consumer c _ = 0

abbrev pub tokens : ℕ → Syncer → ℕ
tokens c s =
    tally (λ d. d == c) s.queue + held_by_producer c s.producer + held_by_consumer c s.consumer

abbrev pub is_rebuilding : ℕ → Consumer → Bool
is_rebuilding c (rebuilding d) = d == c
is_rebuilding c _ = false

-- What holds of one creator.
pub record IsTracked (s : Syncer) (c : ℕ) : Type 0 where
  pub counted : tokens c s ≡ (if s.pending c then 1 else 0)
  pub busy : s.processing c ≡ is_rebuilding c s.consumer
  pub apart : s.processing c ≡ true → s.pending c ≡ false
  pub marked : s.dirty c ≡ true → s.processing c ≡ true

pub record Inv (s : Syncer) : Type 0 where
  pub tracked : (c : ℕ) → IsTracked s c
  pub bounded : length s.queue ≤ s.cap

pub new_syncer-Inv : (cap : ℕ) → Inv (new_syncer cap)
unfolding new_syncer
new_syncer-Inv cap = record { tracked = λ c. ground arith; bounded = omega arith }

tally-snoc :
    (p : ℕ → Bool) (xs : List ℕ) (x : ℕ)
    → tally p (xs ++ x ∷ []) ≡ tally p xs + (if p x then 1 else 0)
tally-snoc p xs x = tally-append p xs (x ∷ [])

abbrev in_producer : Producer → ℕ
in_producer idle = 0
in_producer (sending d) = d

abbrev in_consumer : Consumer → ℕ
in_consumer (resending d) = d
in_consumer _ = 0

step-IsTracked :
    (a : Action) (s : Syncer) (c : ℕ) {t : Syncer}
    → ((d : ℕ) → IsTracked s d)
    → step a s ≡ some t
    → IsTracked t c
unfolding step
step-IsTracked (request id) s c h e = ground (arith, h c, h (pos_part id))
step-IsTracked send s c h e =
    ground (arith, h c, tally-snoc (λ d. d == c) s.queue (in_producer s.producer))
step-IsTracked receive s c h e = ground (arith, h c)
step-IsTracked begin s c h e = ground (arith, h c)
step-IsTracked finish s c h e = ground (arith, h c)
step-IsTracked resend s c h e =
    ground (arith, h c, tally-snoc (λ d. d == c) s.queue (in_consumer s.consumer))

step-bounded :
    (a : Action) (s : Syncer) {t : Syncer}
    → length s.queue ≤ s.cap
    → step a s ≡ some t
    → length t.queue ≤ t.cap
unfolding step
step-bounded send s h e = ground (arith, length-append s.queue (in_producer s.producer ∷ []))
step-bounded resend s h e = ground (arith, length-append s.queue (in_consumer s.consumer ∷ []))
step-bounded _ s h e = ground arith

pub step-Inv : (a : Action) (s : Syncer) {t : Syncer} → Inv s → step a s ≡ some t → Inv t
step-Inv a s h e = record {
  tracked = λ c. step-IsTracked a s c h.tracked e;
  bounded = step-bounded a s h.bounded e;
}

pub run-Inv_from : (acts : List Action) (s : Syncer) → Inv s → Inv (run acts s)
unfolding run
run-Inv_from [] s h = h
run-Inv_from (a ∷ rest) s h = elim (Option-cases (step a s)) [
  | inl e ↦ rw (e, run) (run-Inv_from rest s h)
  | inr (t, e) ↦ rw (e, run) (run-Inv_from rest t (step-Inv a s h e))
]

-- Over every interleaving of the event loop and the worker, from a new Syncer: a creator is
-- pending exactly when it is once in the channel or in the hands of one of the two goroutines
-- (never twice), it is marked processing exactly while the worker rebuilds it and is not pending
-- then, only such a creator is dirty, and the channel never holds more than its capacity.
pub run-Inv : (cap : ℕ) (acts : List Action) → Inv (run acts (new_syncer cap))
run-Inv cap acts = run-Inv_from acts (new_syncer cap) (new_syncer-Inv cap)
