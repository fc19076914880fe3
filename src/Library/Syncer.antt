-- ===== src/Library/Syncer.antt =====
-- internal/library/queue.go: the event loop (`Start`) and the queue worker (`runQueue`) of the
-- Syncer, which share a bounded channel and three sets under one mutex. A step is what one of
-- the two goroutines does between two points where the other may run.
use Prim.Native.String.{String}
use text.Mathlib.Text.{◌==◌ as str_eq}
use fetch_bilibili.Prelude.{
  ℕ, ltb, ◌==◌, Bool, true, false, Option, none, some, List, [], ◌∷◌, ◌++◌, length, if◌then◌else◌,
}
use fetch_bilibili.Prelude.Int.{ℤ, pos, pos_part, leb_ℤ}
use fetch_bilibili.Repo.Payload.{Payload}
use fetch_bilibili.Library.Payload.{payload_int64}
pub mod Invariant
pub mod Progress
pub mod Deadlock

-- A set of creator ids, `map[int64]struct{}`.
abbrev pub IdSet : Type 0
IdSet = ℕ → Bool

abbrev pub update : IdSet → ℕ → Bool → IdSet
update set k b = λ j. if j == k then b else set j

-- Where the event loop stands: at its `select`, or at `s.queue <- creatorID`.
pub data Producer : Type 0 where
  idle : Producer
  sending : ℕ → Producer

-- Where the worker stands: at its `select`, before the first critical section of processCreator,
-- in rebuildCreator, or at the `select` that puts a dirty creator back.
pub data Consumer : Type 0 where
  waiting : Consumer
  received : ℕ → Consumer
  rebuilding : ℕ → Consumer
  resending : ℕ → Consumer

pub record Syncer : Type 0 where
  pub cap : ℕ
  pub queue : List ℕ
  pub pending : IdSet
  pub processing : IdSet
  pub dirty : IdSet
  pub producer : Producer
  pub consumer : Consumer

-- NewSyncer: the channel's size is given, 256 in the program.
unfoldable pub new_syncer : ℕ → Syncer
new_syncer cap = record {
  cap = cap;
  queue = [];
  pending = λ _. false;
  processing = λ _. false;
  dirty = λ _. false;
  producer = idle;
  consumer = waiting;
}

abbrev pub default_queue_size : ℕ
default_queue_size = 256

-- The critical section of enqueueCreator; the channel send that may follow is a step of its own.
unfoldable pub enqueue_locked : ℕ → Syncer → Syncer
enqueue_locked c s =
    if s.processing c
    then record s { dirty = update s.dirty c true }
    else if s.pending c
    then s
    else record s { pending = update s.pending c true; producer = sending c }

unfoldable pub enqueue_creator : ℤ → Syncer → Syncer
unfolding enqueue_locked
enqueue_creator id s = if leb_ℤ id (pos 0) then s else enqueue_locked (pos_part id) s

-- An event of the broker: its type and payload.
pub record Event : Type 0 where
  pub type : String
  pub payload : Payload

-- The creator that an event asks to rebuild. `creator_of` is the exporter's CreatorIDForVideo,
-- a database query: `none` when it fails.
unfoldable pub requested : (ℤ → Option ℤ) → Event → Option ℤ
unfolding payload_int64
requested creator_of evt =
    if str_eq evt.type "creator.changed"
    then some (payload_int64 evt.payload "id")
    else if str_eq evt.type "video.changed"
    then (let creator_id = payload_int64 evt.payload "creator_id" in
        let video_id = payload_int64 evt.payload "id" in
        if leb_ℤ creator_id (pos 0)
        then if leb_ℤ video_id (pos 0) then none else creator_of video_id
        else some creator_id)
    else none

abbrev on_request : Option ℤ → Syncer → Syncer
on_request none s = s
on_request (some id) s = enqueue_creator id s

unfoldable pub handle_event : (ℤ → Option ℤ) → Event → Syncer → Syncer
unfolding requested
handle_event creator_of evt s = on_request (requested creator_of evt) s

-- processCreator up to rebuildCreator: the first critical section.
unfoldable pub begin_locked : ℕ → Syncer → Syncer
begin_locked c s = record s {
  pending = update s.pending c false;
  processing = update s.processing c true;
  consumer = rebuilding c;
}

-- processCreator from rebuildCreator's return, whatever it returned: the second critical section.
unfoldable pub finish_locked : ℕ → Syncer → Syncer
finish_locked c s =
    let t = record s { processing = update s.processing c false } in
    if s.dirty c
    then record t {
      dirty = update s.dirty c false;
      pending = update s.pending c true;
      consumer = resending c;
    }
    else record t { consumer = waiting }

pub data Action : Type 0 where
  -- The event loop takes a request to rebuild a creator, and runs the critical section.
  request : ℤ → Action
  -- The event loop's send, the worker's receive, and the rest of processCreator.
  send receive begin finish resend : Action

abbrev send_from : Producer → Syncer → Option Syncer
send_from idle s = none
send_from (sending c) s =
    if ltb (length s.queue) s.cap
    then some (record s { queue = s.queue ++ c ∷ []; producer = idle })
    else none

abbrev request_from : Producer → ℤ → Syncer → Option Syncer
request_from idle id s = some (enqueue_creator id s)
request_from (sending _) id s = none

abbrev receive_from : Consumer → List ℕ → Syncer → Option Syncer
receive_from waiting (c ∷ rest) s = some (record s { queue = rest; consumer = received c })
receive_from _ _ s = none

abbrev begin_from : Consumer → Syncer → Option Syncer
begin_from (received c) s = some (begin_locked c s)
begin_from _ s = none

abbrev finish_from : Consumer → Syncer → Option Syncer
finish_from (rebuilding c) s = some (finish_locked c s)
finish_from _ s = none

abbrev resend_from : Consumer → Syncer → Option Syncer
resend_from (resending c) s =
    if ltb (length s.queue) s.cap
    then some (record s { queue = s.queue ++ c ∷ []; consumer = waiting })
    else none
resend_from _ s = none

-- `none`: the goroutine cannot take this step now.
unfoldable pub step : Action → Syncer → Option Syncer
unfolding enqueue_creator begin_locked finish_locked
step (request id) s = request_from s.producer id s
step send s = send_from s.producer s
step receive s = receive_from s.consumer s.queue s
step begin s = begin_from s.consumer s
step finish s = finish_from s.consumer s
step resend s = resend_from s.consumer s

-- A schedule: a step that is not possible is passed over.
unfoldable pub run : List Action → Syncer → Syncer
run [] s = s
run (a ∷ rest) s = elim (step a s) [ none ↦ run rest s | some t ↦ run rest t ]
