-- ===== src/Rpc/Notifications/Order.antt =====
-- A subscription that keeps up receives exactly the notifications that match it, in order.
use codex_python_sdk_unoffic.Common.{
  ℕ, ◌+◌, ◌≤◌, true, false, some, List, [], ◌∷◌, ◌++◌, append_assoc, append-nil, ◌≡◌, refl, sym, ap,
  ◌∙◌, arith, nat_eq, mem, Bool-cases, inl, inr, select, length, length-append,
}
use codex_python_sdk_unoffic.Rpc.Envelope.{JsonRpcNotification}
use codex_python_sdk_unoffic.Rpc.Stream.{is_full, push}
use codex_python_sdk_unoffic.Rpc.Filter.{notification_matches}
use codex_python_sdk_unoffic.Rpc.Notifications.{
  JsonRpcNotificationSubscription, JsonRpcNotificationBus, publish_to, publish_each, publish,
}
use codex_python_sdk_unoffic.Rpc.Notifications.Bounds.{IsValid}
use codex_python_sdk_unoffic.Rpc.Notifications.Runs.{publish-IsValid}
use codex_python_sdk_unoffic.Rpc.Notifications.Delivery.{object, publish_open, publish_delivers}

-- the dispatcher publishes one notification after another
pub publish_all : JsonRpcNotificationBus → List JsonRpcNotification → JsonRpcNotificationBus
publish_all bus [] = bus
publish_all bus (n ∷ ns) = publish_all (publish bus n) ns

abbrev pub matching :
    JsonRpcNotificationSubscription → List JsonRpcNotification → List JsonRpcNotification
matching s ns = select (notification_matches s.filter) ns

closed-publish_to :
    (bus : JsonRpcNotificationBus) (n : JsonRpcNotification) (i : ℕ)
    → (publish_to bus n i).closed ≡ bus.closed
unfolding publish_to
closed-publish_to bus n i = ground arith

closed-publish_each :
    (bus : JsonRpcNotificationBus) (n : JsonRpcNotification) (ids : List ℕ)
    → (publish_each bus n ids).closed ≡ bus.closed
unfolding publish_each
closed-publish_each bus n [] = refl
closed-publish_each bus n (i ∷ ids) =
    closed-publish_each (publish_to bus n i) n ids ∙ closed-publish_to bus n i

closed-publish :
    (bus : JsonRpcNotificationBus) (n : JsonRpcNotification)
    → bus.closed ≡ false
    → (publish bus n).closed ≡ false
closed-publish bus n c = rw (publish_open bus n c) (closed-publish_each bus n bus.registered ∙ c)

abbrev pub extend :
    JsonRpcNotificationSubscription → List JsonRpcNotification → JsonRpcNotificationSubscription
extend s ns = record s { stream = record s.stream { queue = s.stream.queue ++ ns } }

extend-nil : (s : JsonRpcNotificationSubscription) → extend s [] ≡ s
extend-nil s =
    ap (λ q. record s { stream = record s.stream { queue = q } }) (append-nil s.stream.queue)

extend-push :
    (s : JsonRpcNotificationSubscription) (n : JsonRpcNotification) (ns : List JsonRpcNotification)
    → extend (record s { stream = push s.stream n }) ns ≡ extend s (n ∷ ns)
extend-push s n ns =
    ap (λ q. record s { stream = record s.stream { queue = q } })
      (append_assoc s.stream.queue (n ∷ []) ns)

-- While a registered, open subscription has room for all that matches its filter, publishing a list of
-- notifications appends to its queue exactly those that match, in the order in which they were
-- published, and it stays registered.
pub publish_all_in_order :
    (bus : JsonRpcNotificationBus) (ns : List JsonRpcNotification) (i : ℕ)
    (s : JsonRpcNotificationSubscription)
    → IsValid bus
    → bus.closed ≡ false
    → mem i bus.registered ≡ true
    → object bus i ≡ some s
    → s.stream.is_closed ≡ false
    → length s.stream.queue + length (matching s ns) ≤ s.stream.max_queue_size
    → (object (publish_all bus ns) i ≡ some (extend s (matching s ns)))
      × (mem i (publish_all bus ns).registered ≡ true)
unfolding publish_all
publish_all_in_order bus [] i s v c m o open_stream room = (o ∙ ap some (sym (extend-nil s)), m)
publish_all_in_order bus (n ∷ ns) i s v c m o open_stream room =
    elim (Bool-cases (notification_matches s.filter n)) [
      | inl yes_match ↦
          let fits : is_full s.stream ≡ false = ground arith in
          let sent = (publish_delivers bus n i s c v.distinct m o open_stream).1 yes_match fits in
          let rest =
            publish_all_in_order (publish bus n) ns i (record s { stream = push s.stream n })
              (publish-IsValid bus n v) (closed-publish bus n c) sent.1 sent.0 open_stream
              (ground (arith, length-append s.stream.queue (n ∷ []))) in
          (rest.0 ∙ ap some (rw yes_match (extend-push s n (matching s ns))), rest.1)
      | inr no_match ↦
          let kept = (publish_delivers bus n i s c v.distinct m o open_stream).0 no_match in
          rw no_match (
            publish_all_in_order (publish bus n) ns i s (publish-IsValid bus n v)
              (closed-publish bus n c) kept.1 kept.0 open_stream (rw no_match at room))
    ]
