-- ===== src/Rpc/Notifications.antt =====
-- src/codex_agent_sdk/rpc/router.py: the bounded notification bus.
--
-- A subscription is shared by the bus and its consumer. `objects` is the heap of subscriptions, and
-- `registered` lists the ids in the bus's own dictionary, oldest first. That dictionary holds weak
-- references, so an entry also leaves it when its consumer drops the subscription: `forget`.
-- `publish` and the others suspend nowhere, so each runs to its end undisturbed.
pub mod Bounds
pub mod Delivery
pub mod Runs
pub mod Closing
pub mod Reachable
pub mod Order
use codex_python_sdk_unoffic.Common.{
  ℕ, suc, ◌+◌, String, Bool, true, false, Option, none, some, List, [], ◌∷◌, ◌++◌, not, ◌==◌,
  nat_eq, if◌then◌else◌, leb, or_else, without,
}
use codex_python_sdk_unoffic.Common.Dict
use codex_python_sdk_unoffic.Common.Dict.{Dict}
use codex_python_sdk_unoffic.Rpc.Envelope.{JsonRpcNotification}
use codex_python_sdk_unoffic.Rpc.Requests.{RpcException, notification_overflow}
use codex_python_sdk_unoffic.Rpc.Stream
use codex_python_sdk_unoffic.Rpc.Stream.{
  InboundMessageStream, queued, refused, queue_full, new_stream, put_nowait,
}
use codex_python_sdk_unoffic.Rpc.Filter.{SubscriptionFilter, notification_matches}

pub record JsonRpcNotificationSubscription : Type 0 where
  pub filter : SubscriptionFilter
  pub stream : InboundMessageStream JsonRpcNotification
  pub closed : Bool

pub record JsonRpcNotificationBus : Type 0 where
  pub default_max_queue_size : ℕ
  pub next_subscription_id : ℕ
  pub objects : Dict ℕ JsonRpcNotificationSubscription
  pub registered : List ℕ
  pub closed : Bool
  pub terminal_error : Option RpcException

abbrev pub empty : ℕ → JsonRpcNotificationBus
empty default_max_queue_size = record {
  default_max_queue_size = default_max_queue_size;
  next_subscription_id = 0;
  objects = [];
  registered = [];
  closed = false;
  terminal_error = none;
}

-- `none` for the `ValueError` of a limit that is not positive
unfoldable pub new_bus : ℕ → Option JsonRpcNotificationBus
new_bus default_max_queue_size =
    if leb default_max_queue_size 0 then none else some (empty default_max_queue_size)

unfoldable pub close_from_bus :
    JsonRpcNotificationSubscription → Option RpcException → JsonRpcNotificationSubscription
close_from_bus s error =
    if s.closed then s else record s { closed = true; stream = Stream.close s.stream error }

unfoldable pub overflow_error : JsonRpcNotificationSubscription → RpcException
overflow_error s =
    notification_overflow s.stream.max_queue_size s.filter.method s.filter.thread_id
      s.filter.turn_id

-- What one round of the loop of `publish` makes of the subscription, and whether it stays
-- registered.
unfoldable pub offer :
    JsonRpcNotificationSubscription → JsonRpcNotification → JsonRpcNotificationSubscription × Bool
unfolding overflow_error
offer s n =
    if not (notification_matches s.filter n) then (s, true) else elim (put_nowait s.stream n) [
      | queued stream ↦ (record s { stream = stream }, true)
      | queue_full ↦ (close_from_bus s (some (overflow_error s)), false)
      | refused ↦ (s, false)
    ]

abbrev pub update :
    JsonRpcNotificationBus → ℕ → JsonRpcNotificationSubscription → JsonRpcNotificationBus
update bus i s = record bus { objects = Dict.put i s bus.objects }

-- `_unsubscribe`
abbrev pub unregister : JsonRpcNotificationBus → ℕ → JsonRpcNotificationBus
unregister bus i = record bus { registered = without i bus.registered }

unfoldable pub publish_to :
    JsonRpcNotificationBus → JsonRpcNotification → ℕ → JsonRpcNotificationBus
publish_to bus n i = elim (Dict.get i bus.objects) [
  | none ↦ bus
  | some s ↦
      let (s', stays) = offer s n in
      if stays then update bus i s' else update (unregister bus i) i s'
]

unfoldable pub publish_each :
    JsonRpcNotificationBus → JsonRpcNotification → List ℕ → JsonRpcNotificationBus
publish_each bus n [] = bus
publish_each bus n (i ∷ ids) = publish_each (publish_to bus n i) n ids

unfoldable pub publish : JsonRpcNotificationBus → JsonRpcNotification → JsonRpcNotificationBus
publish bus n = if bus.closed then bus else publish_each bus n bus.registered

unfoldable pub close_each :
    JsonRpcNotificationBus → Option RpcException → List ℕ → JsonRpcNotificationBus
close_each bus error [] = bus
close_each bus error (i ∷ ids) = elim (Dict.get i bus.objects) [
  | none ↦ close_each (unregister bus i) error ids
  | some s ↦ close_each (update (unregister bus i) i (close_from_bus s error)) error ids
]

-- the bus's own `close`
unfoldable pub close : JsonRpcNotificationBus → Option RpcException → JsonRpcNotificationBus
close bus error =
    if bus.closed
    then bus
    else close_each
        (record bus { closed = true; terminal_error = or_else bus.terminal_error error }) error
        bus.registered

-- `none` for the `ValueError` of a limit that is not positive
unfoldable pub coerce_max_queue_size : JsonRpcNotificationBus → Option ℕ → Option ℕ
coerce_max_queue_size bus none =
    if leb bus.default_max_queue_size 0 then none else some bus.default_max_queue_size
coerce_max_queue_size bus (some n) = if leb n 0 then none else some n

unfoldable pub new_subscription : SubscriptionFilter → ℕ → JsonRpcNotificationSubscription
new_subscription filter limit = record {
  filter = filter;
  stream = new_stream limit;
  closed = false;
}

-- the new subscription is the object of the id that is returned
unfoldable pub subscribe :
    JsonRpcNotificationBus → SubscriptionFilter → Option ℕ → Option (JsonRpcNotificationBus × ℕ)
subscribe bus filter max_queue_size = elim (coerce_max_queue_size bus max_queue_size) [
  | none ↦ none
  | some limit ↦
      let i = bus.next_subscription_id + 1 in
      let fresh = record bus { next_subscription_id = i } in
      if bus.closed
      then some
          (update fresh i (close_from_bus (new_subscription filter limit) bus.terminal_error), i)
      else some (
        update (record fresh { registered = bus.registered ++ i ∷ [] }) i
            (new_subscription filter limit),
        i,
      )
]

-- the subscription's own `close`
unfoldable pub close_subscription : JsonRpcNotificationBus → ℕ → JsonRpcNotificationBus
close_subscription bus i = elim (Dict.get i bus.objects) [
  | none ↦ bus
  | some s ↦ update (unregister bus i) i (close_from_bus s none)
]

take_from :
    JsonRpcNotificationSubscription
    → Stream.Next JsonRpcNotification
    → JsonRpcNotificationSubscription
take_from s (Stream.item a rest) = record s { stream = rest }
take_from s _ = s

-- the consumer asks for the next item
unfoldable pub take_next : JsonRpcNotificationBus → ℕ → JsonRpcNotificationBus
unfolding take_from
take_next bus i = elim (Dict.get i bus.objects) [
  | none ↦ bus
  | some s ↦ update bus i (take_from s (Stream.next_item s.stream))
]

-- the consumer drops its last reference
unfoldable pub forget : JsonRpcNotificationBus → ℕ → JsonRpcNotificationBus
forget bus i = unregister bus i
