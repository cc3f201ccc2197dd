-- ===== src/Rpc/Notifications/Bounds.antt =====
-- The invariant of the notification bus, and bounded queues after every sequence of calls.
use codex_python_sdk_unoffic.Common.{
  ℕ, ◌≤◌, ◌<◌, true, false, Option, some, [], ◌∷◌, ◌≡◌, refl, arith, ◌==◌, nat_eq, nat_beq_iff, mem,
  IsDistinct, mem-without, without-IsDistinct, Option-cases, Bool-cases, inl, inr, length,
  length-append,
}
use codex_python_sdk_unoffic.Common.Dict
use codex_python_sdk_unoffic.Common.Dict.{get-put}
use codex_python_sdk_unoffic.Rpc.Envelope.{JsonRpcNotification}
use codex_python_sdk_unoffic.Rpc.Requests.{RpcException}
use codex_python_sdk_unoffic.Rpc.Stream
use codex_python_sdk_unoffic.Rpc.Stream.{InboundMessageStream, put_nowait, is_full, push}
use codex_python_sdk_unoffic.Rpc.Notifications.{
  JsonRpcNotificationSubscription, JsonRpcNotificationBus, update, unregister, offer,
  close_from_bus, publish_to,
}

-- A subscription's limit is positive, its queue is within the limit, and its stream is closed
-- exactly when it is.
pub record IsSound (s : JsonRpcNotificationSubscription) : Type 0 where
  pub positive : 0 < s.stream.max_queue_size
  pub bounded : length s.stream.queue ≤ s.stream.max_queue_size
  pub agrees : s.stream.is_closed ≡ s.closed

-- Registered ids are distinct, and each is a subscription that is open; every subscription is
-- sound and has an id that was handed out; a closed bus has no registered subscription.
pub record IsValid (bus : JsonRpcNotificationBus) : Type 0 where
  pub positive : 0 < bus.default_max_queue_size
  pub distinct : IsDistinct bus.registered
  pub alive :
      (i : ℕ)
      → mem i bus.registered ≡ true
      → (s : JsonRpcNotificationSubscription) × (Dict.get i bus.objects ≡ some s)
        × (s.closed ≡ false)
  pub sound :
      (i : ℕ) (s : JsonRpcNotificationSubscription) → Dict.get i bus.objects ≡ some s → IsSound s
  pub handed_out :
      (i : ℕ) (s : JsonRpcNotificationSubscription)
      → Dict.get i bus.objects ≡ some s
      → i ≤ bus.next_subscription_id
  pub quiet : bus.closed ≡ true → bus.registered ≡ []

pub close_from_bus-IsSound :
    (s : JsonRpcNotificationSubscription) (e : Option RpcException)
    → IsSound s
    → IsSound (close_from_bus s e)
unfolding close_from_bus Stream.close
close_from_bus-IsSound s e h = elim (Bool-cases s.closed) [
  | inl c ↦ simp c h
  | inr o ↦ simp o (record { positive = h.positive; bounded = h.bounded; agrees = refl })
]

pub offer-IsSound :
    (s : JsonRpcNotificationSubscription) (n : JsonRpcNotification)
    → IsSound s
    → IsSound (offer s n).0
unfolding offer put_nowait close_from_bus Stream.close
offer-IsSound s n h = record {
  positive = ground arith;
  bounded = ground (arith, length-append s.stream.queue (n ∷ []));
  agrees = ground arith;
}

-- A subscription that stays registered stays open.
offer_open :
    (s : JsonRpcNotificationSubscription) (n : JsonRpcNotification)
    → IsSound s
    → s.closed ≡ false
    → (offer s n).1 ≡ true
    → (offer s n).0.closed ≡ false
unfolding offer put_nowait
offer_open s n h o stay = ground arith

pub update-IsValid :
    (bus : JsonRpcNotificationBus) (i : ℕ) (s : JsonRpcNotificationSubscription)
    → IsValid bus
    → i ≤ bus.next_subscription_id
    → IsSound s
    → (mem i bus.registered ≡ true → s.closed ≡ false)
    → IsValid (update bus i s)
update-IsValid bus i s v le sound open_if = record {
  positive = v.positive;
  distinct = v.distinct;
  alive = λ j m. elim (Bool-cases (i == j)) [
    | inl same ↦ (s, ground (arith, get-put i j s bus.objects), ground (arith, nat_beq_iff i j))
    | inr other ↦ let (t, e, o) = v.alive j m in (t, ground (arith, get-put i j s bus.objects), o)
  ];
  sound = λ j t e. elim (Bool-cases (i == j)) [
    | inl same ↦ let here : s ≡ t = ground (arith, get-put i j s bus.objects) in rw (← here) sound
    | inr other ↦ v.sound j t (ground (arith, get-put i j s bus.objects))
  ];
  handed_out =
      λ j t e. ground (arith, get-put i j s bus.objects, nat_beq_iff i j, v.handed_out j t);
  quiet = v.quiet;
}

pub unregister-IsValid :
    (bus : JsonRpcNotificationBus) (i : ℕ) → IsValid bus → IsValid (unregister bus i)
unregister-IsValid bus i v = record {
  positive = v.positive;
  distinct = without-IsDistinct i bus.registered v.distinct;
  alive = λ j m. v.alive j (ground (arith, mem-without i j bus.registered));
  sound = v.sound;
  handed_out = v.handed_out;
  quiet = λ c. rw (v.quiet c) refl;
}

pub publish_to-IsValid :
    (bus : JsonRpcNotificationBus) (n : JsonRpcNotification) (i : ℕ)
    → IsValid bus
    → IsValid (publish_to bus n i)
unfolding publish_to
publish_to-IsValid bus n i v = elim (Option-cases (Dict.get i bus.objects)) [
  | inl miss ↦ rw (miss, publish_to) v
  | inr (s, hit) ↦ elim (Bool-cases (offer s n).1) [
    | inl stay ↦
        rw (hit, publish_to, stay)
          (update-IsValid bus i (offer s n).0 v (v.handed_out i s hit)
            (offer-IsSound s n (v.sound i s hit))
            (λ m. offer_open s n (v.sound i s hit) (open_at m hit) stay))
    | inr leave ↦
        rw (hit, publish_to, leave)
          (update-IsValid (unregister bus i) i (offer s n).0 (unregister-IsValid bus i v)
            (v.handed_out i s hit) (offer-IsSound s n (v.sound i s hit))
            (λ m. ground (arith, mem-without i i bus.registered, nat_beq_iff i i)))
  ]
]
  where
    open_at :
        mem i bus.registered ≡ true
        → {s : JsonRpcNotificationSubscription} → Dict.get i bus.objects ≡ some s
        → s.closed ≡ false
    open_at m e = let (t, e', o) = v.alive i m in ground arith
