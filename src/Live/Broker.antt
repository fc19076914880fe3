-- ===== src/Live/Broker.antt =====
-- internal/live/broker.go: Subscribe, Publish, removeSubscriber and subscriberCount, each under
-- the broker's mutex and so one step. Channels live on a heap of their own, since a subscriber
-- keeps its channel after the broker has dropped it. The list of subscribers stands for the map's
-- keys in the order in which `range` visits them, which Go leaves open.
-- Events are of any type, since the broker never looks into one. A channel is buffered, so a send succeeds exactly if there is room.
use fetch_bilibili.Prelude.{
  ℕ, suc, ltb, ◌==◌, Bool, true, false, not, Option, none, some, List, [], ◌∷◌, ◌++◌, length, keep,
  member, if◌then◌else◌,
}
pub mod Safety
pub mod Delivery

pub record Channel (E : Type 0) : Type 0 where
  pub cap : ℕ
  pub buf : List E
  pub closed : Bool

pub record Broker (E : Type 0) : Type 0 where
  pub channels : ℕ → Channel E
  pub subscribers : List ℕ
  pub next_id : ℕ

-- An operation of another goroutine on the broker, or a subscriber's receive on its channel.
pub data Op (E : Type 0) : Type 0 where
  subscribe : ℕ → Op E
  publish : E → Op E
  remove : ℕ → Op E
  receive : ℕ → Op E

module _ {E : Type 0} where
  abbrev pub has_room : Channel E → Bool
  has_room ch = ltb (length ch.buf) ch.cap

  abbrev pub set_channel : ℕ → Channel E → Broker E → Broker E
  set_channel id ch b = record b { channels = λ j. if j == id then ch else b.channels j }

  -- `delete(b.subscribers, id)`.
  abbrev pub delete : ℕ → Broker E → Broker E
  delete id b = record b { subscribers = keep (λ j. not (j == id)) b.subscribers }

  unfoldable pub new_broker : Broker E
  new_broker = record {
    channels = λ _. record { cap = 0; buf = []; closed = true };
    subscribers = [];
    next_id = 0;
  }

  -- `make(chan Event, buffer)`, entered under the next id.
  unfoldable pub subscribe_step : ℕ → Broker E → Broker E
  subscribe_step buffer b =
      let ch : Channel E = record { cap = buffer; buf = []; closed = false } in
      record (set_channel b.next_id ch b) {
        subscribers = b.next_id ∷ b.subscribers;
        next_id = suc b.next_id;
      }

  -- `close(ch)`: `none` is the panic of a second close.
  close : ℕ → Broker E → Option (Broker E)
  close id b =
      if (b.channels id).closed
      then none
      else some (set_channel id (record (b.channels id) { closed = true }) b)

  abbrev pub try_map : (Broker E → Broker E) → Option (Broker E) → Option (Broker E)
  try_map f none = none
  try_map f (some b) = some (f b)

  -- The `select` of Publish for one subscriber: `none` is the panic of a send on a closed channel.
  pub send_one : E → ℕ → Broker E → Option (Broker E)
  unfolding close
  send_one evt id b =
      let ch = b.channels id in
      if ch.closed
      then none
      else if has_room ch
      then some (set_channel id (record ch { buf = ch.buf ++ evt ∷ [] }) b)
      else try_map (delete id) (close id b)

  pub send_each : E → List ℕ → Broker E → Option (Broker E)
  send_each evt [] b = some b
  send_each evt (id ∷ rest) b = elim (send_one evt id b) [
    | none ↦ none
    | some b' ↦ send_each evt rest b'
  ]

  unfoldable pub publish_step : E → Broker E → Option (Broker E)
  publish_step evt b = send_each evt b.subscribers b

  unfoldable pub remove_subscriber : ℕ → Broker E → Option (Broker E)
  unfolding close
  remove_subscriber id b = if member id b.subscribers then close id (delete id b) else some b

  unfoldable pub subscriber_count : Broker E → ℕ
  subscriber_count b = length b.subscribers

  -- A subscriber takes the oldest event out of its channel, closed or not.
  abbrev rest_of : List E → List E
  rest_of [] = []
  rest_of (_ ∷ rest) = rest

  unfoldable pub receive_step : ℕ → Broker E → Broker E
  receive_step id b =
      set_channel id (record (b.channels id) { buf = rest_of (b.channels id).buf }) b

  unfoldable pub step : Op E → Broker E → Option (Broker E)
  unfolding subscribe_step publish_step remove_subscriber receive_step
  step (subscribe buffer) b = some (subscribe_step buffer b)
  step (publish evt) b = publish_step evt b
  step (remove id) b = remove_subscriber id b
  step (receive id) b = some (receive_step id b)

  -- A run of the program, until it ends or panics.
  unfoldable pub run : List (Op E) → Broker E → Option (Broker E)
  run [] b = some b
  run (o ∷ rest) b = elim (step o b) [ none ↦ none | some b' ↦ run rest b' ]
