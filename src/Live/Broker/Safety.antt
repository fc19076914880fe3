-- ===== src/Live/Broker/Safety.antt =====
-- The broker's channels against its table of subscribers.
use fetch_bilibili.Prelude.{
  ℕ, ◌<◌, ◌≤◌, ◌≡◌, refl, arith, ◌==◌, true, false, not, ◌&&◌, ◌||◌, some, List, [], ◌∷◌, ◌++◌,
  length, length-append, member, member-keep, Distinct, keep-Distinct, if◌then◌else◌, inl, inr,
  Bool-cases,
}
use fetch_bilibili.Live.Broker.{
  Channel, Broker, Op, subscribe, publish, remove, receive, has_room, set_channel, delete,
  new_broker, send_one, send_each, publish_step, subscribe_step, receive_step, remove_subscriber,
  step, run,
}

module _ {E : Type 0} where
  -- The subscribers' ids are distinct and were given out; exactly their channels are open; and no
  -- channel holds more than its buffer.
  pub record Inv (b : Broker E) : Type 0 where
    pub distinct : Distinct b.subscribers
    pub given_out : (j : ℕ) → member j b.subscribers ≡ true → j < b.next_id
    pub opened : (j : ℕ) → (b.channels j).closed ≡ not (member j b.subscribers)
    pub bounded : (j : ℕ) → length (b.channels j).buf ≤ (b.channels j).cap

  pub new_broker-Inv : Inv new_broker
  unfolding new_broker
  new_broker-Inv = record {
    distinct = tt;
    given_out = λ j h. cc;
    opened = λ j. refl;
    bounded = λ j. omega arith;
  }

  -- What Publish does to one subscriber's channel.
  abbrev pub deliver : E → Channel E → Channel E
  deliver evt ch =
      if has_room ch then record ch { buf = ch.buf ++ evt ∷ [] } else record ch { closed = true }

  -- Publish, told by what becomes of each channel and of the table.
  pub record Published (evt : E) (ids : List ℕ) (b b' : Broker E) : Type 0 where
    pub reached : (j : ℕ) → member j ids ≡ true → b'.channels j ≡ deliver evt (b.channels j)
    pub untouched : (j : ℕ) → member j ids ≡ false → b'.channels j ≡ b.channels j
    pub dropped :
        (j : ℕ)
        → member j b'.subscribers
          ≡ (member j b.subscribers && (not (member j ids) || has_room (b.channels j)))
    pub distinct : Distinct b.subscribers → Distinct b'.subscribers
    pub same_id : b'.next_id ≡ b.next_id

  send_one_lem :
      (evt : E) (id : ℕ) (b : Broker E)
      → (b.channels id).closed ≡ false
      → (b' : Broker E) × (send_one evt id b ≡ some b') × Published evt (id ∷ []) b b'
  unfolding send_one
  send_one_lem evt id b o = elim (Bool-cases (has_room (b.channels id))) [
    | inl r ↦ (
      set_channel id (deliver evt (b.channels id)) b,
      ground arith,
      record {
        reached = λ j m. ground arith;
        untouched = λ j m. ground arith;
        dropped = λ j. ground arith;
        distinct = λ d. d;
        same_id = refl;
      },
    )
    | inr r ↦ (
      delete id (set_channel id (deliver evt (b.channels id)) b),
      ground arith,
      record {
        reached = λ j m. ground arith;
        untouched = λ j m. ground arith;
        dropped = λ j. ground (arith, member-keep (λ k. not (k == id)) j b.subscribers);
        distinct = λ d. keep-Distinct (λ k. not (k == id)) b.subscribers d;
        same_id = refl;
      },
    )
  ]

  Published-trans :
      (evt : E) (id : ℕ) (rest : List ℕ) (b c d : Broker E)
      → member id rest ≡ false
      → Published evt (id ∷ []) b c
      → Published evt rest c d
      → Published evt (id ∷ rest) b d
  Published-trans evt id rest b c d m p q = record {
    reached = λ j r. ground (arith, p.reached j, p.untouched j, q.reached j, q.untouched j, m);
    untouched = λ j r. ground (arith, p.untouched j, q.untouched j);
    dropped = λ j. ground (arith, p.dropped j, q.dropped j, p.reached j, p.untouched j, m);
    distinct = λ x. q.distinct (p.distinct x);
    same_id = ground (arith, p.same_id, q.same_id);
  }

  Published-nil : (evt : E) (b : Broker E) → Published evt [] b b
  Published-nil evt b = record {
    reached = λ j r. cc;
    untouched = λ j r. refl;
    dropped = λ j. ground arith;
    distinct = λ x. x;
    same_id = refl;
  }

  pub send_each_lem :
      (evt : E) (ids : List ℕ) (b : Broker E)
      → Distinct ids
      → ((j : ℕ) → member j ids ≡ true → (b.channels j).closed ≡ false)
      → (b' : Broker E) × (send_each evt ids b ≡ some b') × Published evt ids b b'
  unfolding send_each
  send_each_lem evt [] b d o = (b, refl, Published-nil evt b)
  send_each_lem evt (id ∷ rest) b d o =
      let (c, sent, p) = send_one_lem evt id b (o id (ground arith)) in
      let (e, sent', q) =
        send_each_lem evt rest c d.1 (λ j m. ground (arith, p.untouched j, o j, d.0)) in
      (e, rw (sent, send_each) sent', Published-trans evt id rest b c e d.0 p q)

  -- With the invariant, Publish does not panic.
  pub publish_step_lem :
      (evt : E) (b : Broker E)
      → Inv b
      → (b' : Broker E) × (publish_step evt b ≡ some b') × Published evt b.subscribers b b'
  unfolding publish_step
  publish_step_lem evt b i =
      send_each_lem evt b.subscribers b i.distinct (λ j m. ground (arith, i.opened j))

  Published-Inv : (evt : E) (b b' : Broker E) → Inv b → Published evt b.subscribers b b' → Inv b'
  Published-Inv evt b b' i p = record {
    distinct = p.distinct i.distinct;
    given_out = λ j m. ground (arith, p.dropped j, i.given_out j, p.same_id);
    opened = λ j. ground (arith, p.dropped j, p.reached j, p.untouched j, i.opened j);
    bounded = λ j. ground (
      arith,
      p.reached j,
      p.untouched j,
      i.bounded j,
      length-append (b.channels j).buf (evt ∷ []),
    );
  }

  subscribe_step-Inv : (buffer : ℕ) (b : Broker E) → Inv b → Inv (subscribe_step buffer b)
  unfolding subscribe_step
  subscribe_step-Inv buffer b i = record {
    distinct = (ground (arith, i.given_out b.next_id), i.distinct);
    given_out = λ j m. ground (arith, i.given_out j);
    opened = λ j. ground (arith, i.opened j);
    bounded = λ j. ground (arith, i.bounded j);
  }

  receive_step-Inv : (id : ℕ) (b : Broker E) → Inv b → Inv (receive_step id b)
  unfolding receive_step
  receive_step-Inv id b i = record {
    distinct = i.distinct;
    given_out = i.given_out;
    opened = λ j. ground (arith, i.opened j);
    bounded = λ j. ground (arith, i.bounded j);
  }

  remove_subscriber_safe :
      (id : ℕ) (b : Broker E)
      → Inv b
      → (b' : Broker E) × (remove_subscriber id b ≡ some b') × Inv b'
  unfolding remove_subscriber
  remove_subscriber_safe id b i = elim (Bool-cases (member id b.subscribers)) [
    | inl m ↦ (
      set_channel id (record (b.channels id) { closed = true }) (delete id b),
      ground (arith, i.opened id),
      record {
        distinct = keep-Distinct (λ k. not (k == id)) b.subscribers i.distinct;
        given_out =
            λ j k. ground (arith, i.given_out j, member-keep (λ k. not (k == id)) j b.subscribers);
        opened = λ j. ground (arith, i.opened j, member-keep (λ k. not (k == id)) j b.subscribers);
        bounded = λ j. ground (arith, i.bounded j);
      },
    )
    | inr m ↦ (b, ground arith, i)
  ]

  -- Every operation succeeds, without a panic, and keeps the invariant.
  pub step_safe :
      (o : Op E) (b : Broker E) → Inv b → (b' : Broker E) × (step o b ≡ some b') × Inv b'
  unfolding step
  step_safe (subscribe buffer) b i = (subscribe_step buffer b, refl, subscribe_step-Inv buffer b i)
  step_safe (publish evt) b i =
      let (b', e, p) = publish_step_lem evt b i in (b', e, Published-Inv evt b b' i p)
  step_safe (remove id) b i = remove_subscriber_safe id b i
  step_safe (receive id) b i = (receive_step id b, refl, receive_step-Inv id b i)

  run_safe :
      (ops : List (Op E)) (b : Broker E) → Inv b → (b' : Broker E) × (run ops b ≡ some b') × Inv b'
  unfolding run
  run_safe [] b i = (b, refl, i)
  run_safe (o ∷ rest) b i =
      let (c, e, j) = step_safe o b i in
      let (d, e', k) = run_safe rest c j in (d, rw (e, run) e', k)

-- Any sequence of subscriptions, publications, cancellations and receives, in any order and also
-- repeated, runs from a new broker to its end: it never sends on a closed channel and never closes
-- a channel twice. Afterwards the ids in the table are distinct and were given out, exactly the
-- channels in the table are open, and no channel holds more than its buffer.
pub broker_never_panics :
    {E : Type 0} (ops : List (Op E)) → (b : Broker E) × (run ops new_broker ≡ some b) × Inv b
broker_never_panics ops = run_safe ops new_broker new_broker-Inv
