-- ===== src/Library/Syncer/Progress.antt =====
-- No request to rebuild a creator is lost.
use fetch_bilibili.Prelude.{
  ℕ, ◌≡◌, arith, true, false, none, some, List, [], ◌∷◌, if◌then◌else◌, ◌⊎◌, inl, inr, Option-cases,
}
use fetch_bilibili.Prelude.Int.{ℤ, pos, pos_part, leb_ℤ}
use fetch_bilibili.Library.Syncer.{
  IdSet, update, idle, Consumer, waiting, received, Syncer, new_syncer, Action, request, send,
  receive, begin, finish, resend, step, run,
}
use fetch_bilibili.Library.Syncer.Invariant.{Inv, new_syncer-Inv, step-Inv, run-Inv}

-- The creators that a request came in for since the worker last began to rebuild them. This is
-- kept beside the run, and the program does not have it.
abbrev pub mark_request : ℤ → IdSet → IdSet
mark_request id stale = if leb_ℤ id (pos 0) then stale else update stale (pos_part id) true

abbrev pub mark_begin : Consumer → IdSet → IdSet
mark_begin (received c) stale = update stale c false
mark_begin _ stale = stale

abbrev pub mark : Action → Syncer → IdSet → IdSet
mark (request id) s stale = mark_request id stale
mark begin s stale = mark_begin s.consumer stale
mark _ s stale = stale

unfoldable pub stale_after : List Action → Syncer → IdSet → IdSet
stale_after [] s stale = stale
stale_after (a ∷ rest) s stale = elim (step a s) [
  | none ↦ stale_after rest s stale
  | some t ↦ stale_after rest t (mark a s stale)
]

-- Each such creator is pending, or dirty and so pending again once its rebuild is over.
abbrev IsKept : Syncer → IdSet → ℕ → Type 0
IsKept s stale c = stale c ≡ true → (s.pending c ≡ true) ⊎ (s.dirty c ≡ true)

step-IsKept :
    (a : Action) (s : Syncer) (stale : IdSet) (c : ℕ) {t : Syncer}
    → Inv s
    → IsKept s stale c
    → step a s ≡ some t
    → IsKept t (mark a s stale) c
unfolding step
step-IsKept (request id) s stale c i h e = ground (arith, i.tracked c)
step-IsKept send s stale c i h e = ground (arith, i.tracked c)
step-IsKept receive s stale c i h e = ground (arith, i.tracked c)
step-IsKept begin s stale c i h e = ground (arith, i.tracked c)
step-IsKept finish s stale c i h e = ground (arith, i.tracked c)
step-IsKept resend s stale c i h e = ground (arith, i.tracked c)

run-IsKept :
    (acts : List Action) (s : Syncer) (stale : IdSet) (c : ℕ)
    → Inv s
    → IsKept s stale c
    → IsKept (run acts s) (stale_after acts s stale) c
unfolding run stale_after
run-IsKept [] s stale c i h = h
run-IsKept (a ∷ rest) s stale c i h = elim (Option-cases (step a s)) [
  | inl e ↦ rw (e, run, stale_after) (run-IsKept rest s stale c i h)
  | inr (t, e) ↦
      rw (e, run, stale_after)
        (run-IsKept rest t (mark a s stale) c (step-Inv a s i e) (step-IsKept a s stale c i h e))
]

-- Nothing is in the channel, and both goroutines stand at their `select`.
pub record IsQuiet (s : Syncer) : Type 0 where
  pub no_queue : s.queue ≡ []
  pub no_send : s.producer ≡ idle
  pub no_work : s.consumer ≡ waiting

quiet_of_kept :
    (s : Syncer) (stale : IdSet) (c : ℕ) → Inv s → IsKept s stale c → IsQuiet s → stale c ≡ false
quiet_of_kept s stale c i h q = ground (arith, i.tracked c)

-- Over every interleaving from a new Syncer: once both goroutines are back at their `select` and
-- the channel is empty, a rebuild of every requested creator has begun after the last request for
-- it.
pub no_request_lost :
    (cap : ℕ) (acts : List Action) (c : ℕ)
    → IsQuiet (run acts (new_syncer cap))
    → stale_after acts (new_syncer cap) (λ _. false) c ≡ false
no_request_lost cap acts c q =
    quiet_of_kept (run acts (new_syncer cap)) (stale_after acts (new_syncer cap) (λ _. false)) c
      (run-Inv cap acts)
      (run-IsKept acts (new_syncer cap) (λ _. false) c (new_syncer-Inv cap) (λ e. cc)) q
