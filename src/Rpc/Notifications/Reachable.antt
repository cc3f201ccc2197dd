-- ===== src/Rpc/Notifications/Reachable.antt =====
-- The notification bus after every sequence of calls by the dispatcher and the consumers.
use codex_python_sdk_unoffic.Common.{
  ℕ, ◌+◌, ◌<◌, false, Option, none, some, [], ◌∷◌, ◌++◌, ◌≡◌, refl, arith, ◌==◌, nat_eq,
  nat_beq_iff, leb, mem, mem-append, append-IsDistinct, Option-cases, Bool-cases, inl, inr,
}
use codex_python_sdk_unoffic.Common.Dict
use codex_python_sdk_unoffic.Common.Dict.{get-put}
use codex_python_sdk_unoffic.Rpc.Envelope.{JsonRpcNotification}
use codex_python_sdk_unoffic.Rpc.Requests.{RpcException}
use codex_python_sdk_unoffic.Rpc.Filter.{SubscriptionFilter}
use codex_python_sdk_unoffic.Rpc.Notifications.{
  empty, JsonRpcNotificationSubscription, JsonRpcNotificationBus, new_bus, update, close_from_bus,
  publish, close, subscribe, new_subscription, coerce_max_queue_size, close_subscription, take_next,
  forget,
}
use codex_python_sdk_unoffic.Rpc.Notifications.Bounds.{
  IsSound, IsValid, update-IsValid, unregister-IsValid, close_from_bus-IsSound,
}
use codex_python_sdk_unoffic.Rpc.Notifications.Runs.{
  publish-IsValid, close_subscription-IsValid, take_next-IsValid, close-IsValid,
}

positive_limit :
    (bus : JsonRpcNotificationBus) (m : Option ℕ) (n : ℕ)
    → coerce_max_queue_size bus m ≡ some n
    → 0 < n
unfolding coerce_max_queue_size
positive_limit bus none n h = ground arith
positive_limit bus (some k) n h = ground arith

new-IsSound : (f : SubscriptionFilter) (n : ℕ) → 0 < n → IsSound (new_subscription f n)
unfolding new_subscription
new-IsSound f n h = record { positive = h; bounded = omega arith; agrees = refl }

-- the next id is taken by no subscription
next-fresh :
    (bus : JsonRpcNotificationBus)
    → IsValid bus
    → mem (bus.next_subscription_id + 1) bus.registered ≡ false
next-fresh bus v = elim (Bool-cases (mem (bus.next_subscription_id + 1) bus.registered)) [
  | inl m ↦
      let (s, e, o) = v.alive (bus.next_subscription_id + 1) m in
      let le = v.handed_out (bus.next_subscription_id + 1) s e in absurd (omega arith)
  | inr free ↦ free
]

advance-IsValid :
    (bus : JsonRpcNotificationBus)
    → IsValid bus
    → IsValid (record bus { next_subscription_id = bus.next_subscription_id + 1 })
advance-IsValid bus v = record {
  positive = v.positive;
  distinct = v.distinct;
  alive = v.alive;
  sound = v.sound;
  handed_out = λ i s e. omega (arith, v.handed_out i s e);
  quiet = v.quiet;
}

-- A new id joins the bus once its subscription is in the heap.
join-IsValid :
    (bus : JsonRpcNotificationBus) (i : ℕ) (s : JsonRpcNotificationSubscription)
    → IsValid bus
    → mem i bus.registered ≡ false
    → Dict.get i bus.objects ≡ some s
    → s.closed ≡ false
    → bus.closed ≡ false
    → IsValid (record bus { registered = bus.registered ++ i ∷ [] })
join-IsValid bus i s v free e o b = record {
  positive = v.positive;
  distinct = append-IsDistinct i bus.registered v.distinct free;
  alive = λ j m. elim (Bool-cases (i == j)) [
    | inl same ↦ (s, rw ((nat_beq_iff i j).0 same) at e, o)
    | inr other ↦ v.alive j (ground (arith, mem-append i j bus.registered))
  ];
  sound = v.sound;
  handed_out = v.handed_out;
  quiet = λ c. cc (b, c);
}

subscribe-IsValid :
    (bus bus' : JsonRpcNotificationBus) (f : SubscriptionFilter) (m : Option ℕ) (i : ℕ)
    → IsValid bus
    → subscribe bus f m ≡ some (bus', i)
    → IsValid bus'
unfolding subscribe
subscribe-IsValid bus bus' f m i v h = elim (Option-cases (coerce_max_queue_size bus m)) [
  | inl miss ↦ absurd (ground arith)
  | inr (n, hit) ↦
      let sound = new-IsSound f n (positive_limit bus m n hit) in
      let fresh = next-fresh bus v in
      elim (Bool-cases bus.closed) [
        | inl c ↦
            let e : update next i_new (close_from_bus (new_subscription f n) bus.terminal_error)
                ≡ bus' =
              ground arith in
            rw (← e) (
              update-IsValid next i_new (close_from_bus (new_subscription f n) bus.terminal_error)
                (advance-IsValid bus v) (omega arith)
                (close_from_bus-IsSound _ bus.terminal_error sound) (λ m. cc (fresh, m)))
        | inr o ↦
            let e : update (record next { registered = bus.registered ++ i_new ∷ [] }) i_new
                  (new_subscription f n)
                ≡ bus' =
              ground arith in
            rw (← e) (
              join-IsValid (update next i_new (new_subscription f n)) i_new (new_subscription f n)
                (update-IsValid next i_new (new_subscription f n) (advance-IsValid bus v)
                  (omega arith) sound (λ m. cc (fresh, m)))
                fresh
                (ground (
                  arith,
                  get-put i_new i_new (new_subscription f n) bus.objects,
                  nat_beq_iff i_new i_new,
                ))
                (unfold new_subscription in refl) o)
      ]
]
  where
    i_new : ℕ
    i_new = bus.next_subscription_id + 1

    next : JsonRpcNotificationBus
    next = record bus { next_subscription_id = bus.next_subscription_id + 1 }

new_bus-IsValid : (n : ℕ) (bus : JsonRpcNotificationBus) → new_bus n ≡ some bus → IsValid bus
unfolding new_bus Dict.get mem
new_bus-IsValid n bus h = elim (Bool-cases (leb n 0)) [
  | inl bad ↦ absurd (ground arith)
  | inr fine ↦
      let e : empty n ≡ bus = ground arith in
      rw (← e) (record {
        positive = ground arith;
        distinct = tt;
        alive = λ i m. cc;
        sound = λ i s e. cc;
        handed_out = λ i s e. cc;
        quiet = λ c. refl;
      })
]

-- One call of the dispatcher or a consumer.
pub data Step : JsonRpcNotificationBus → JsonRpcNotificationBus → Type 0 where
  published : (bus : JsonRpcNotificationBus) (n : JsonRpcNotification) → Step bus (publish bus n)
  closed : (bus : JsonRpcNotificationBus) (e : Option RpcException) → Step bus (close bus e)
  subscribed :
      (bus bus' : JsonRpcNotificationBus) (f : SubscriptionFilter) (m : Option ℕ) (i : ℕ)
      → subscribe bus f m ≡ some (bus', i)
      → Step bus bus'
  unsubscribed : (bus : JsonRpcNotificationBus) (i : ℕ) → Step bus (close_subscription bus i)
  taken : (bus : JsonRpcNotificationBus) (i : ℕ) → Step bus (take_next bus i)
  forgotten : (bus : JsonRpcNotificationBus) (i : ℕ) → Step bus (forget bus i)

pub data Reach (bus : JsonRpcNotificationBus) : JsonRpcNotificationBus → Type 0 where
  here : Reach bus bus
  next : {b c : JsonRpcNotificationBus} → Reach bus b → Step b c → Reach bus c

Step-IsValid : {b c : JsonRpcNotificationBus} → Step b c → IsValid b → IsValid c
unfolding forget
Step-IsValid (published bus n) v = publish-IsValid bus n v
Step-IsValid (closed bus e) v = close-IsValid bus e v
Step-IsValid (subscribed bus bus' f m i h) v = subscribe-IsValid bus bus' f m i v h
Step-IsValid (unsubscribed bus i) v = close_subscription-IsValid bus i v
Step-IsValid (taken bus i) v = take_next-IsValid bus i v
Step-IsValid (forgotten bus i) v = unregister-IsValid bus i v

Reach-IsValid_from : {b c : JsonRpcNotificationBus} → Reach b c → IsValid b → IsValid c
Reach-IsValid_from here v = v
Reach-IsValid_from (next r st) v = Step-IsValid st (Reach-IsValid_from r v)

-- From a fresh bus, every sequence of publishing, subscribing, reading, closing and dropping reaches
-- a valid bus: no queue is longer than its limit, registered ids are distinct and stand for open
-- subscriptions, and a closed bus has none.
pub bus_always_IsValid :
    (n : ℕ) (bus bus' : JsonRpcNotificationBus)
    → new_bus n ≡ some bus
    → Reach bus bus'
    → IsValid bus'
bus_always_IsValid n bus bus' h r = Reach-IsValid_from r (new_bus-IsValid n bus h)
