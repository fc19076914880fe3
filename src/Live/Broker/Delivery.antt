-- ===== src/Live/Broker/Delivery.antt =====
-- What a subscriber receives, against what was published while it was subscribed.
use mathlib.Core.Path.{subst}
use mathlib.Core.List.{append-nil, append_assoc}
use fetch_bilibili.Prelude.{
  ℕ, ◌≤◌, ◌≡◌, refl, arith, ◌==◌, true, not, none, some, List, [], ◌∷◌, ◌++◌, length, length-append,
  member, if◌then◌else◌, ◌⊎◌, inl, inr, Bool-cases, sym, ◌∙◌, member-keep,
}
use fetch_bilibili.Live.Broker.{
  Broker, Op, subscribe, publish, remove, receive, has_room, new_broker, step, run, subscribe_step,
  receive_step, remove_subscriber, rest_of,
}
use fetch_bilibili.Live.Broker.Safety.{Inv, new_broker-Inv, Published, publish_step_lem, step_safe}

-- Kept beside a run: what each subscriber has received, what was published while it was in the
-- table, and how many events waited in its channel at the last of these.
pub record Log (E : Type 0) : Type 0 where
  pub taken : ℕ → List E
  pub sent : ℕ → List E
  pub waiting : ℕ → ℕ

module _ {E : Type 0} where
  abbrev pub new_log : Log E
  new_log = record { taken = λ _. []; sent = λ _. []; waiting = λ _. 0 }

  abbrev pub first_of : List E → List E
  first_of [] = []
  first_of (x ∷ _) = x ∷ []

  abbrev pub log_step : Op E → Broker E → Log E → Log E
  log_step (subscribe _) b l = record {
    taken = λ j. if j == b.next_id then [] else l.taken j;
    sent = λ j. if j == b.next_id then [] else l.sent j;
    waiting = λ j. if j == b.next_id then 0 else l.waiting j;
  }
  log_step (publish evt) b l = record l {
    sent = λ j. if member j b.subscribers then l.sent j ++ evt ∷ [] else l.sent j;
    waiting = λ j. if member j b.subscribers then length (b.channels j).buf else l.waiting j;
  }
  log_step (remove _) b l = l
  log_step (receive id) b l = record l {
    taken = λ j. if j == id then l.taken j ++ first_of (b.channels j).buf else l.taken j;
  }

  unfoldable pub log_run : List (Op E) → Broker E → Log E → Log E
  log_run [] b l = l
  log_run (o ∷ rest) b l = elim (step o b) [ none ↦ l | some b' ↦ log_run rest b' (log_step o b l) ]

  -- What was sent to a subscriber is what it received, then what its channel still holds, then
  -- what it missed: nothing while it is in the table, and at most one event after that, which came
  -- when as many events waited as the channel holds. The channel never holds more.
  pub record Delivered (b : Broker E) (l : Log E) (j : ℕ) : Type 0 where
    pub missed : List E
    pub in_order : l.taken j ++ ((b.channels j).buf ++ missed) ≡ l.sent j
    pub all_sent : member j b.subscribers ≡ true → missed ≡ []
    pub at_most_one : length missed ≤ 1
    pub was_full : (missed ≡ []) ⊎ (l.waiting j ≡ (b.channels j).cap)
    pub within : length (b.channels j).buf ≤ (b.channels j).cap

  abbrev AllDelivered : Broker E → Log E → Type 0
  AllDelivered b l = (j : ℕ) → Delivered b l j

  subscribe-Delivered :
      (buffer : ℕ) (b : Broker E) (l : Log E) (j : ℕ)
      → Delivered b l j
      → Delivered (subscribe_step buffer b) (log_step (subscribe buffer) b l) j
  unfolding subscribe_step
  subscribe-Delivered buffer b l j d = elim (Bool-cases (j == b.next_id)) [
    | inl e ↦ record {
      missed = [];
      in_order = rw e;
      all_sent = λ _. refl;
      at_most_one = omega arith;
      was_full = inl refl;
      within = rw e (omega arith);
    }
    | inr e ↦ record {
      missed = d.missed;
      in_order = rw e d.in_order;
      all_sent = λ m. d.all_sent (ground arith);
      at_most_one = d.at_most_one;
      was_full = rw e d.was_full;
      within = rw e d.within;
    }
  ]

  take_front : (t xs m : List E) → (t ++ first_of xs) ++ (rest_of xs ++ m) ≡ t ++ (xs ++ m)
  take_front t [] m = rw append-nil
  take_front t (x ∷ xs) m = append_assoc t (x ∷ []) (xs ++ m)

  rest_of_le : (xs : List E) → length (rest_of xs) ≤ length xs
  rest_of_le [] = omega arith
  rest_of_le (x ∷ xs) = omega arith

  receive-Delivered :
      (id : ℕ) (b : Broker E) (l : Log E) (j : ℕ)
      → Delivered b l j
      → Delivered (receive_step id b) (log_step (receive id) b l) j
  unfolding receive_step
  receive-Delivered id b l j d = record {
    missed = d.missed;
    in_order = ground (arith, d.in_order, take_front (l.taken j) (b.channels j).buf d.missed);
    all_sent = d.all_sent;
    at_most_one = d.at_most_one;
    was_full = ground (arith, d.was_full);
    within = ground (arith, d.within, rest_of_le (b.channels j).buf);
  }

  remove-Delivered :
      (id : ℕ) (b b' : Broker E) (l : Log E) (j : ℕ)
      → remove_subscriber id b ≡ some b'
      → Delivered b l j
      → Delivered b' l j
  unfolding remove_subscriber
  remove-Delivered id b b' l j e d = record {
    missed = d.missed;
    in_order = ground (arith, d.in_order);
    all_sent = λ m. d.all_sent (ground (arith, member-keep (λ k. not (k == id)) j b.subscribers));
    at_most_one = d.at_most_one;
    was_full = ground (arith, d.was_full);
    within = ground (arith, d.within);
  }

  sent_on :
      (t xs m s : List E) (evt : E)
      → m ≡ []
      → t ++ (xs ++ m) ≡ s
      → t ++ (xs ++ evt ∷ []) ≡ s ++ evt ∷ []
  sent_on t xs m s evt e h = rw (← h, e, append-nil) (sym (append_assoc t xs (evt ∷ [])))

  publish-Delivered :
      (evt : E) (b b' : Broker E) (l : Log E) (j : ℕ)
      → Published evt b.subscribers b b'
      → Delivered b l j
      → Delivered b' (log_step (publish evt) b l) j
  publish-Delivered evt b b' l j p d = elim (Bool-cases (member j b.subscribers)) [
    | inr out ↦ record {
      missed = d.missed;
      in_order = rw (out, p.untouched j out) d.in_order;
      all_sent = λ m. ground (arith, p.dropped j);
      at_most_one = d.at_most_one;
      was_full = rw (out, p.untouched j out) d.was_full;
      within = rw (p.untouched j out) d.within;
    }
    | inl here ↦ elim (Bool-cases (has_room (b.channels j))) [
      | inl room ↦ record {
        missed = [];
        in_order =
            rw (here, p.reached j here)
              (rw room (
                rw append-nil (
                  sent_on (l.taken j) (b.channels j).buf d.missed (l.sent j) evt (d.all_sent here)
                    d.in_order)));
        all_sent = λ _. refl;
        at_most_one = omega arith;
        was_full = inl refl;
        within =
            rw (p.reached j here)
              (rw room (ground (arith, room, length-append (b.channels j).buf (evt ∷ []))));
      }
      | inr full ↦ record {
        missed = evt ∷ [];
        in_order =
            rw (here, p.reached j here)
              (rw full (
                sent_on (l.taken j) (b.channels j).buf d.missed (l.sent j) evt (d.all_sent here)
                  d.in_order));
        all_sent = λ m. ground (arith, p.dropped j);
        at_most_one = omega arith;
        was_full = inr (rw (here, p.reached j here) (rw full (ground (arith, full, d.within))));
        within = rw (p.reached j here) (rw full d.within);
      }
    ]
  ]

  some_inj : {x y : Broker E} → some x ≡ some y → x ≡ y
  some_inj e = cc

  step-Delivered :
      (o : Op E) (b b' : Broker E) (l : Log E)
      → Inv b
      → step o b ≡ some b'
      → AllDelivered b l
      → AllDelivered b' (log_step o b l)
  unfolding step
  step-Delivered (subscribe buffer) b b' l i e d j =
      subst (λ c. Delivered c (log_step (subscribe buffer) b l) j) (some_inj e)
        (subscribe-Delivered buffer b l j (d j))
  step-Delivered (publish evt) b b' l i e d j =
      let (c, e', p) = publish_step_lem evt b i in
      subst (λ c. Delivered c (log_step (publish evt) b l) j) (some_inj (sym e' ∙ e))
        (publish-Delivered evt b c l j p (d j))
  step-Delivered (remove id) b b' l i e d j = remove-Delivered id b b' l j e (d j)
  step-Delivered (receive id) b b' l i e d j =
      subst (λ c. Delivered c (log_step (receive id) b l) j) (some_inj e)
        (receive-Delivered id b l j (d j))

  run-Delivered :
      (ops : List (Op E)) (b b' : Broker E) (l : Log E)
      → Inv b
      → AllDelivered b l
      → run ops b ≡ some b'
      → AllDelivered b' (log_run ops b l)
  unfolding run log_run
  run-Delivered [] b b' l i d e j = subst (λ c. Delivered c l j) (some_inj e) (d j)
  run-Delivered (o ∷ rest) b b' l i d e j =
      let (c, stepped, k) = step_safe o b i in
      rw (stepped, log_run)
        (run-Delivered rest c b' (log_step o b l) k (step-Delivered o b c l i stepped d)
          (rw (stepped, run) at e) j)

new_broker-Delivered : {E : Type 0} → AllDelivered {E = E} new_broker new_log
unfolding new_broker
new_broker-Delivered j = record {
  missed = [];
  in_order = refl;
  all_sent = λ _. refl;
  at_most_one = omega arith;
  was_full = inl refl;
  within = omega arith;
}

-- After any run from a new broker, for every subscriber: the events published while it was in the
-- table are, in this order and without a gap, those that it has received, those that still wait
-- in its channel, and those that it missed. It missed none if it is still in the table, and at
-- most one if it is not: an event that was published when as many events waited in its channel as this
-- holds. No channel ever holds more.
pub events_in_order :
    {E : Type 0} (ops : List (Op E)) (b : Broker E) (j : ℕ)
    → run ops new_broker ≡ some b
    → Delivered b (log_run ops new_broker new_log) j
events_in_order ops b j e =
    run-Delivered ops new_broker b new_log new_broker-Inv new_broker-Delivered e j
