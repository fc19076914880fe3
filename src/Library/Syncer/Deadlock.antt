-- ===== src/Library/Syncer/Deadlock.antt =====
-- The worker is the only reader of the channel, and puts a dirty creator back into it by a
-- blocking send: with the channel full it waits for itself.
use fetch_bilibili.Prelude.{
  ℕ, zero, suc, ◌+◌, ◌<◌, ◌≤◌, ◌≡◌, refl, sym, ap, ◌∙◌, arith, true, false, some, List, [], ◌∷◌,
  ◌++◌, length, length-append, ltb, ◌⊎◌, inl, inr, Option-cases, ◌≢◌, Bool-cases,
}
use fetch_bilibili.Prelude.Int.{ℤ, pos}
use fetch_bilibili.Library.Syncer.{
  update, begin_locked, finish_locked, Producer, idle, sending, Consumer, waiting, received,
  rebuilding, resending, Syncer, new_syncer, Action, request, send, receive, begin, finish, resend,
  step, run,
}
use fetch_bilibili.Library.Syncer.Invariant.{Inv, run-Inv}

-- The worker has a dirty creator to put back, and the channel is full.
pub record IsStuck (s : Syncer) : Type 0 where
  pub creator : ℕ
  pub blocked : s.consumer ≡ resending creator
  pub full : length s.queue ≡ s.cap

-- A goroutine other than the event loop's `select` can move: it is not waiting for new events.
abbrev pub CanMove : Syncer → Type 0
CanMove s = (a : Action) × (t : Syncer) × ((id : ℤ) → a ≢ request id) × (step a s ≡ some t)

module _ (s : Syncer) where
  move_received : (d : ℕ) → s.consumer ≡ received d → CanMove s
  unfolding step
  move_received d e = (begin, begin_locked d s, (λ id e'. cc), ground arith)

  move_rebuilding : (d : ℕ) → s.consumer ≡ rebuilding d → CanMove s
  unfolding step
  move_rebuilding d e = (finish, finish_locked d s, (λ id e'. cc), ground arith)

  move_resending :
      (d : ℕ) → length s.queue ≤ s.cap → s.consumer ≡ resending d → IsStuck s ⊎ CanMove s
  unfolding step
  move_resending d b e = elim (Bool-cases (ltb (length s.queue) s.cap)) [
    | inl room ↦ inr (
      resend,
      record s { queue = s.queue ++ d ∷ []; consumer = waiting },
      (λ id e'. cc),
      ground arith,
    )
    | inr none_left ↦ inl (record { creator = d; blocked = e; full = ground arith })
  ]

  move_waiting : (d : ℕ) (rest : List ℕ) → s.consumer ≡ waiting → s.queue ≡ d ∷ rest → CanMove s
  unfolding step
  move_waiting d rest e q =
      (receive, record s { queue = rest; consumer = received d }, (λ id e'. cc), ground arith)

  move_sending : (d : ℕ) → 0 < s.cap → s.producer ≡ sending d → s.queue ≡ [] → CanMove s
  unfolding step
  move_sending d h e q =
      (send, record s { queue = s.queue ++ d ∷ []; producer = idle }, (λ id e'. cc), ground arith)

List-cases {ℓ} :
    {A : Type ℓ} (xs : List A) → (xs ≡ []) ⊎ ((x : A) × (rest : List A) × (xs ≡ x ∷ rest))
List-cases [] = inl refl
List-cases (x ∷ rest) = inr (x, rest, refl)

Producer-cases : (p : Producer) → (p ≡ idle) ⊎ ((d : ℕ) × (p ≡ sending d))
Producer-cases idle = inl refl
Producer-cases (sending d) = inr (d, refl)

move_of_consumer :
    (k : Consumer) (s : Syncer) (c : ℕ)
    → s.consumer ≡ k
    → 0 < s.cap
    → Inv s
    → s.pending c ≡ true
    → IsStuck s ⊎ CanMove s
move_of_consumer (received d) s c e h i p = inr (move_received s d e)
move_of_consumer (rebuilding d) s c e h i p = inr (move_rebuilding s d e)
move_of_consumer (resending d) s c e h i p = move_resending s d i.bounded e
move_of_consumer waiting s c e h i p = elim (List-cases s.queue) [
  | inr (d, rest, q) ↦ inr (move_waiting s d rest e q)
  | inl q ↦ elim (Producer-cases s.producer) [
    | inr (d, w) ↦ inr (move_sending s d h w q)
    | inl w ↦ absurd (ground (arith, i.tracked c))
  ]
]

cap-step : (a : Action) (s : Syncer) {t : Syncer} → step a s ≡ some t → t.cap ≡ s.cap
unfolding step
cap-step (request id) s e = ground arith
cap-step _ s e = ground arith

cap-run : (acts : List Action) (s : Syncer) → (run acts s).cap ≡ s.cap
unfolding run
cap-run [] s = refl
cap-run (a ∷ rest) s = elim (Option-cases (step a s)) [
  | inl e ↦ rw (e, run) (cap-run rest s)
  | inr (t, e) ↦ rw (e, run) (cap-run rest t ∙ cap-step a s e)
]

cap-run_new : (acts : List Action) (cap : ℕ) → (run acts (new_syncer cap)).cap ≡ cap
unfolding new_syncer
cap-run_new acts cap = cap-run acts (new_syncer cap)

-- Over every interleaving from a new Syncer with a channel of size at least 1: while a creator is
-- pending, either the worker waits to put a dirty creator back into a full channel, or the event
-- loop's send or the worker can take its next step.
pub pending_moves :
    (cap : ℕ) (acts : List Action) (c : ℕ)
    → 0 < cap
    → (run acts (new_syncer cap)).pending c ≡ true
    → IsStuck (run acts (new_syncer cap)) ⊎ CanMove (run acts (new_syncer cap))
pending_moves cap acts c h p =
    move_of_consumer (run acts (new_syncer cap)).consumer (run acts (new_syncer cap)) c refl
      (omega (arith, cap-run_new acts cap)) (run-Inv cap acts) p

step_stuck :
    (a : Action) (s : Syncer) {t : Syncer}
    → IsStuck s
    → step a s ≡ some t
    → (t.queue ≡ s.queue) × (t.consumer ≡ s.consumer) × (t.cap ≡ s.cap)
unfolding step
step_stuck (request id) s h e = ground arith
step_stuck send s h e = ground arith
step_stuck receive s h e = ground arith
step_stuck begin s h e = ground arith
step_stuck finish s h e = ground arith
step_stuck resend s h e = ground arith

again-IsStuck :
    {s t : Syncer}
    → IsStuck s
    → (t.queue ≡ s.queue) × (t.consumer ≡ s.consumer) × (t.cap ≡ s.cap)
    → IsStuck t
again-IsStuck h e = record {
  creator = h.creator;
  blocked = e.1 ∙ h.blocked;
  full = ap length e.0 ∙ h.full ∙ sym e.2;
}

-- From such a state no step of either goroutine, and no further request, ever changes the channel
-- or frees the worker: no creator is rebuilt again.
pub stuck_forever :
    (acts : List Action) (s : Syncer)
    → IsStuck s
    → ((run acts s).queue ≡ s.queue) × ((run acts s).consumer ≡ s.consumer)
unfolding run
stuck_forever [] s h = (refl, refl)
stuck_forever (a ∷ rest) s h = elim (Option-cases (step a s)) [
  | inl e ↦ rw (e, run) (stuck_forever rest s h)
  | inr (t, e) ↦
      let same = step_stuck a s h e in
      let later = stuck_forever rest t (again-IsStuck h same) in
      rw (e, run) (later.0 ∙ same.0, later.1 ∙ same.1)
]

-- Requests for the creators from + 1, …, from + n, each sent into the channel.
abbrev pub fill : ℕ → ℕ → List Action
fill from zero = []
fill from (suc n) = request (pos (suc from)) ∷ send ∷ fill (suc from) n

-- Creator 1 is being rebuilt when a request for it comes in; then the channel fills up, and the
-- rebuild ends.
abbrev pub jam : ℕ → List Action
jam cap = request (pos 1) ∷ send ∷ receive ∷ begin ∷ request (pos 1) ∷ (fill 1 cap ++ finish ∷ [])

-- The state while the channel fills.
record IsFilling (s : Syncer) (from n : ℕ) : Type 0 where
  capped : length s.queue + n ≡ s.cap
  free : (c : ℕ) → from < c → (s.pending c ≡ false) × (s.processing c ≡ false)
  rests : s.producer ≡ idle
  works : s.consumer ≡ rebuilding 1
  dirty : s.dirty 1 ≡ true

abbrev filled : ℕ → Syncer → Syncer
filled c s = record s { pending = update s.pending c true; queue = s.queue ++ c ∷ [] }

filled-IsFilling :
    (s : Syncer) (from n : ℕ)
    → IsFilling s from (suc n)
    → IsFilling (filled (suc from) s) (suc from) n
filled-IsFilling s from n h = record {
  capped = omega (arith, h.capped, length-append {0} s.queue (suc from ∷ []));
  free = λ c lt. ground (arith, h.free c);
  rests = h.rests;
  works = h.works;
  dirty = h.dirty;
}

run_request_send :
    (s : Syncer) (from n : ℕ) (rest : List Action)
    → IsFilling s from (suc n)
    → run (request (pos (suc from)) ∷ send ∷ rest) s ≡ run rest (filled (suc from) s)
unfolding run step
run_request_send s from n rest h = ground (arith, h.free (suc from))

finish-IsStuck : (s : Syncer) (from : ℕ) → IsFilling s from 0 → IsStuck (run (finish ∷ []) s)
unfolding run step
finish-IsStuck s from h = record {
  creator = 1;
  blocked = ground (arith, h.works, h.dirty);
  full = ground (arith, h.works, h.dirty, h.capped);
}

fill-IsStuck :
    (n from : ℕ) (s : Syncer) → IsFilling s from n → IsStuck (run (fill from n ++ finish ∷ []) s)
fill-IsStuck zero from s h = finish-IsStuck s from h
fill-IsStuck (suc n) from s h =
    rw (run_request_send s from n (fill (suc from) n ++ finish ∷ []) h)
      (fill-IsStuck n (suc from) (filled (suc from) s) (filled-IsFilling s from n h))

-- Creator 1 is being rebuilt, and is dirty.
jammed : ℕ → Syncer
unfolding new_syncer
jammed cap = record (new_syncer cap) {
  pending = update (update (λ _. false) 1 true) 1 false;
  processing = update (λ _. false) 1 true;
  dirty = update (λ _. false) 1 true;
  consumer = rebuilding 1;
}

jammed-IsFilling : (cap : ℕ) → IsFilling (jammed cap) 1 cap
unfolding jammed
jammed-IsFilling cap = record {
  capped = omega arith;
  free = λ c lt. ground arith;
  rests = refl;
  works = refl;
  dirty = refl;
}

run_jam_start :
    (cap : ℕ) (rest : List Action)
    → 0 < cap
    → run (request (pos 1) ∷ send ∷ receive ∷ begin ∷ request (pos 1) ∷ rest) (new_syncer cap)
      ≡ run rest (jammed cap)
unfolding run step jammed
run_jam_start cap rest h = ground arith

-- For every size of the channel from 1 on, the schedule `jam` brings a new Syncer into a state where
-- the worker waits for itself for good: the event loop took requests for as many other creators as
-- fit in the channel while the worker rebuilt a creator that was requested again.
pub jam-IsStuck : (cap : ℕ) → 0 < cap → IsStuck (run (jam cap) (new_syncer cap))
jam-IsStuck cap h =
    rw (run_jam_start cap (fill 1 cap ++ finish ∷ []) h)
      (fill-IsStuck cap 1 (jammed cap) (jammed-IsFilling cap))
