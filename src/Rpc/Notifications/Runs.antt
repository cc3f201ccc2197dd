-- ===== src/Rpc/Notifications/Runs.antt =====
-- Every call on the notification bus keeps its invariant, and so does every sequence of calls.
use codex_python_sdk_unoffic.Common.{
  ℕ, true, false, Option, none, some, List, [], ◌∷◌, ◌≡◌, refl, ◌∙◌, arith, not, ◌&&◌, nat_eq,
  nat_beq_iff, mem, mem-without, empty_of_mem, Option-cases, Bool-cases, inl, inr, or_else,
}
use codex_python_sdk_unoffic.Common.Dict
use codex_python_sdk_unoffic.Common.Dict.{get-put}
use codex_python_sdk_unoffic.Rpc.Envelope.{JsonRpcNotification}
use codex_python_sdk_unoffic.Rpc.Requests.{RpcException}
use codex_python_sdk_unoffic.Rpc.Stream
use codex_python_sdk_unoffic.Rpc.Stream.{InboundMessageStream, put_nowait, is_full, push}
use codex_python_sdk_unoffic.Rpc.Notifications.{
  JsonRpcNotificationSubscription, JsonRpcNotificationBus, update, unregister, close_from_bus,
  publish_to, publish_each, publish, close_each, close, close_subscription, take_from, take_next,
}
use codex_python_sdk_unoffic.Rpc.Notifications.Bounds.{
  IsSound, IsValid, update-IsValid, unregister-IsValid, publish_to-IsValid, close_from_bus-IsSound,
}

publish_each-IsValid :
    (bus : JsonRpcNotificationBus) (n : JsonRpcNotification) (ids : List ℕ)
    → IsValid bus
    → IsValid (publish_each bus n ids)
unfolding publish_each
publish_each-IsValid bus n [] v = v
publish_each-IsValid bus n (i ∷ ids) v =
    publish_each-IsValid (publish_to bus n i) n ids (publish_to-IsValid bus n i v)

pub publish-IsValid :
    (bus : JsonRpcNotificationBus) (n : JsonRpcNotification) → IsValid bus → IsValid (publish bus n)
unfolding publish
publish-IsValid bus n v = elim (Bool-cases bus.closed) [
  | inl c ↦ simp c v
  | inr o ↦ simp o (publish_each-IsValid bus n bus.registered v)
]

-- a subscription that is closed by the bus is closed
closed-close_from_bus :
    (s : JsonRpcNotificationSubscription) (e : Option RpcException)
    → (close_from_bus s e).closed ≡ true
unfolding close_from_bus
closed-close_from_bus s e = ground arith

pub close_subscription-IsValid :
    (bus : JsonRpcNotificationBus) (i : ℕ) → IsValid bus → IsValid (close_subscription bus i)
unfolding close_subscription
close_subscription-IsValid bus i v = elim (Option-cases (Dict.get i bus.objects)) [
  | inl miss ↦ rw (miss, close_subscription) v
  | inr (s, hit) ↦
      rw (hit, close_subscription)
        (update-IsValid (unregister bus i) i (close_from_bus s none) (unregister-IsValid bus i v)
          (v.handed_out i s hit) (close_from_bus-IsSound s none (v.sound i s hit))
          (λ m. ground (arith, mem-without i i bus.registered, nat_beq_iff i i)))
]

take_from-IsSound :
    (s : JsonRpcNotificationSubscription)
    → IsSound s
    → IsSound (take_from s (Stream.next_item s.stream))
unfolding take_from Stream.next_item
take_from-IsSound s h = record {
  positive = ground arith;
  bounded = ground arith;
  agrees = ground arith;
}

closed-take_from :
    (s : JsonRpcNotificationSubscription)
    → (take_from s (Stream.next_item s.stream)).closed ≡ s.closed
unfolding take_from Stream.next_item
closed-take_from s = ground arith

open_subscription :
    (bus : JsonRpcNotificationBus) (i : ℕ) (s : JsonRpcNotificationSubscription)
    → IsValid bus
    → Dict.get i bus.objects ≡ some s
    → mem i bus.registered ≡ true
    → s.closed ≡ false
open_subscription bus i s v e m = let (t, e', o) = v.alive i m in ground arith

pub take_next-IsValid :
    (bus : JsonRpcNotificationBus) (i : ℕ) → IsValid bus → IsValid (take_next bus i)
unfolding take_next
take_next-IsValid bus i v = elim (Option-cases (Dict.get i bus.objects)) [
  | inl miss ↦ rw (miss, take_next) v
  | inr (s, hit) ↦
      rw (hit, take_next)
        (update-IsValid bus i (take_from s (Stream.next_item s.stream)) v (v.handed_out i s hit)
          (take_from-IsSound s (v.sound i s hit))
          (λ m. closed-take_from s ∙ open_subscription bus i s v hit m))
]

close_each-IsValid :
    (bus : JsonRpcNotificationBus) (e : Option RpcException) (ids : List ℕ)
    → IsValid bus
    → IsValid (close_each bus e ids)
unfolding close_each
close_each-IsValid bus e [] v = v
close_each-IsValid bus e (i ∷ ids) v = elim (Option-cases (Dict.get i bus.objects)) [
  | inl miss ↦
      rw (miss, close_each)
        (close_each-IsValid (unregister bus i) e ids (unregister-IsValid bus i v))
  | inr (s, hit) ↦
      rw (hit, close_each)
        (close_each-IsValid (update (unregister bus i) i (close_from_bus s e)) e ids (
          update-IsValid (unregister bus i) i (close_from_bus s e) (unregister-IsValid bus i v)
            (v.handed_out i s hit) (close_from_bus-IsSound s e (v.sound i s hit))
            (λ m. ground (arith, mem-without i i bus.registered, nat_beq_iff i i))))
]

-- `closed` and the terminal error, set before the walk over the subscriptions
abbrev mark : JsonRpcNotificationBus → Option RpcException → JsonRpcNotificationBus
mark bus t = record bus { closed = true; terminal_error = t }

close_each-mark :
    (bus : JsonRpcNotificationBus) (t e : Option RpcException) (ids : List ℕ)
    → close_each (mark bus t) e ids ≡ mark (close_each bus e ids) t
unfolding close_each
close_each-mark bus t e [] = refl
close_each-mark bus t e (i ∷ ids) = elim (Option-cases (Dict.get i bus.objects)) [
  | inl miss ↦ rw (miss, close_each) (close_each-mark (unregister bus i) t e ids)
  | inr (s, hit) ↦
      rw (hit, close_each)
        (close_each-mark (update (unregister bus i) i (close_from_bus s e)) t e ids)
]

registered-close_each :
    (bus : JsonRpcNotificationBus) (e : Option RpcException) (ids : List ℕ) (j : ℕ)
    → mem j (close_each bus e ids).registered ≡ (mem j bus.registered && not (mem j ids))
unfolding close_each mem
registered-close_each bus e [] j = ground arith
registered-close_each bus e (i ∷ ids) j = elim (Option-cases (Dict.get i bus.objects)) [
  | inl miss ↦
      rw (miss, close_each)
        (registered-close_each (unregister bus i) e ids j
          ∙ ground (arith, mem-without i j bus.registered))
  | inr (s, hit) ↦
      rw (hit, close_each)
        (registered-close_each (update (unregister bus i) i (close_from_bus s e)) e ids j
          ∙ ground (arith, mem-without i j bus.registered))
]

mark-IsValid :
    (bus : JsonRpcNotificationBus) (t : Option RpcException)
    → IsValid bus
    → bus.registered ≡ []
    → IsValid (mark bus t)
mark-IsValid bus t v e = record {
  positive = v.positive;
  distinct = v.distinct;
  alive = v.alive;
  sound = v.sound;
  handed_out = v.handed_out;
  quiet = λ _. e;
}

closed-close_each :
    (bus : JsonRpcNotificationBus) (e : Option RpcException) (ids : List ℕ)
    → (close_each bus e ids).closed ≡ bus.closed
unfolding close_each
closed-close_each bus e [] = refl
closed-close_each bus e (i ∷ ids) = elim (Option-cases (Dict.get i bus.objects)) [
  | inl miss ↦ rw (miss, close_each) (closed-close_each (unregister bus i) e ids)
  | inr (s, hit) ↦
      rw (hit, close_each)
        (closed-close_each (update (unregister bus i) i (close_from_bus s e)) e ids)
]

pub closed-close :
    (bus : JsonRpcNotificationBus) (e : Option RpcException) → (close bus e).closed ≡ true
unfolding close
closed-close bus e =
    let marked = mark bus (or_else bus.terminal_error e) in
    ground (arith, closed-close_each marked e bus.registered)

pub close-IsValid :
    (bus : JsonRpcNotificationBus) (e : Option RpcException) → IsValid bus → IsValid (close bus e)
unfolding close
close-IsValid bus e v = elim (Bool-cases bus.closed) [
  | inl c ↦ simp c v
  | inr o ↦
      simp (o, close_each-mark)
        (mark-IsValid (close_each bus e bus.registered) (or_else bus.terminal_error e)
          (close_each-IsValid bus e bus.registered v)
          (empty_of_mem _ (λ j. registered-close_each bus e bus.registered j ∙ ground arith)))
]
