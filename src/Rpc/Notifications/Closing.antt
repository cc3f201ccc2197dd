-- ===== src/Rpc/Notifications/Closing.antt =====
-- src/codex_agent_sdk/rpc/router.py: what `close` leaves of the subscriptions of the bus.
use codex_python_sdk_unoffic.Common.{
  ℕ, true, false, Option, none, some, or_else, List, [], ◌∷◌, ◌≡◌, ◌∙◌, refl, arith, nat_eq,
  nat_beq_iff, mem, ◌==◌, inl, inr, Option-cases, Bool-cases,
}
use codex_python_sdk_unoffic.Common.Dict
use codex_python_sdk_unoffic.Common.Dict.{get-put}
use codex_python_sdk_unoffic.Rpc.Requests.{RpcException}
use codex_python_sdk_unoffic.Rpc.Stream
use codex_python_sdk_unoffic.Rpc.Notifications.{
  JsonRpcNotificationBus, JsonRpcNotificationSubscription, close_from_bus, close_each, close,
  update, unregister,
}
use codex_python_sdk_unoffic.Rpc.Notifications.Bounds.{IsValid}

-- a subscription that was closed with an error: its consumer gets what is queued and then the error
abbrev pub ended_by :
    JsonRpcNotificationSubscription → Option RpcException → JsonRpcNotificationSubscription
ended_by s e = record s { closed = true; stream = Stream.close s.stream e }

-- one round of the loop
unfoldable close_one : JsonRpcNotificationBus → Option RpcException → ℕ → JsonRpcNotificationBus
close_one bus e i = elim (Dict.get i bus.objects) [
  | none ↦ unregister bus i
  | some s ↦ update (unregister bus i) i (close_from_bus s e)
]

close_each-step :
    (bus : JsonRpcNotificationBus) (e : Option RpcException) (i : ℕ) (ids : List ℕ)
    → close_each bus e (i ∷ ids) ≡ close_each (close_one bus e i) e ids
unfolding close_each close_one
close_each-step bus e i ids = elim (Option-cases (Dict.get i bus.objects)) [
  | inl miss ↦ rw (miss, close_each, close_one) refl
  | inr (s, hit) ↦ rw (hit, close_each, close_one) refl
]

-- a subscription that is closed stays as it is
close_one-kept :
    (bus : JsonRpcNotificationBus) (e : Option RpcException) (i j : ℕ)
    (s : JsonRpcNotificationSubscription)
    → Dict.get j bus.objects ≡ some s
    → s.closed ≡ true
    → Dict.get j (close_one bus e i).objects ≡ some s
unfolding close_one close_from_bus
close_one-kept bus e i j s h c = elim (Option-cases (Dict.get i bus.objects)) [
  | inl miss ↦ rw (miss, close_one) h
  | inr (t, hit) ↦
      rw (hit, close_one)
        (ground (arith, h, c, hit, nat_beq_iff i j, get-put i j (close_from_bus t e) bus.objects))
]

close_each-kept :
    (bus : JsonRpcNotificationBus) (e : Option RpcException) (ids : List ℕ) (j : ℕ)
    (s : JsonRpcNotificationSubscription)
    → Dict.get j bus.objects ≡ some s
    → s.closed ≡ true
    → Dict.get j (close_each bus e ids).objects ≡ some s
unfolding close_each
close_each-kept bus e [] j s h c = h
close_each-kept bus e (i ∷ ids) j s h c =
    rw (close_each-step bus e i ids)
      (close_each-kept (close_one bus e i) e ids j s (close_one-kept bus e i j s h c) c)

close_one-here :
    (bus : JsonRpcNotificationBus) (e : Option RpcException) (j : ℕ)
    (s : JsonRpcNotificationSubscription)
    → Dict.get j bus.objects ≡ some s
    → s.closed ≡ false
    → Dict.get j (close_one bus e j).objects ≡ some (ended_by s e)
unfolding close_one close_from_bus
close_one-here bus e j s h o =
    rw (h, close_one)
      (ground (arith, o, nat_beq_iff j j, get-put j j (close_from_bus s e) bus.objects))

close_one-other :
    (bus : JsonRpcNotificationBus) (e : Option RpcException) (i j : ℕ)
    → (i == j) ≡ false
    → Dict.get j (close_one bus e i).objects ≡ Dict.get j bus.objects
unfolding close_one
close_one-other bus e i j n = elim (Option-cases (Dict.get i bus.objects)) [
  | inl miss ↦ rw (miss, close_one) refl
  | inr (t, hit) ↦
      rw (hit, close_one) (ground (arith, n, get-put i j (close_from_bus t e) bus.objects))
]

close_each-ended :
    (bus : JsonRpcNotificationBus) (e : Option RpcException) (ids : List ℕ) (j : ℕ)
    (s : JsonRpcNotificationSubscription)
    → mem j ids ≡ true
    → Dict.get j bus.objects ≡ some s
    → s.closed ≡ false
    → Dict.get j (close_each bus e ids).objects ≡ some (ended_by s e)
unfolding mem
close_each-ended bus e [] j s m h o = absurd (ground (arith, m))
close_each-ended bus e (i ∷ ids) j s m h o = elim (Bool-cases (i == j)) [
  | inl same ↦
      let at : i ≡ j = (nat_beq_iff i j).0 same in
      rw (close_each-step bus e i ids) (
        close_each-kept (close_one bus e i) e ids j (ended_by s e)
          (rw at (close_one-here bus e j s h o)) refl)
  | inr n ↦ rw (close_each-step bus e i ids) (
      close_each-ended (close_one bus e i) e ids j s (ground (arith, m, n))
        (close_one-other bus e i j n ∙ h) o)
]

pub close-ended :
    (bus : JsonRpcNotificationBus) (e : Option RpcException) (i : ℕ)
    (s : JsonRpcNotificationSubscription)
    → IsValid bus
    → mem i bus.registered ≡ true
    → Dict.get i bus.objects ≡ some s
    → s.closed ≡ false
    → Dict.get i (close bus e).objects ≡ some (ended_by s e)
unfolding close mem
close-ended bus e i s v m h o = elim (Bool-cases bus.closed) [
  | inl c ↦ absurd (ground (arith, v.quiet c, m))
  | inr o' ↦ simp o' (
      close_each-ended (record bus { closed = true; terminal_error = or_else bus.terminal_error e })
        e bus.registered i s m h o)
]
