-- ===== src/Rpc/Notifications/Delivery.antt =====
-- What `publish` does to each subscription, whatever the others do.
use codex_python_sdk_unoffic.Common.{
  ℕ, Bool, true, false, Option, none, some, List, [], ◌∷◌, ◌≡◌, refl, ◌∙◌, arith, not, ◌&&◌, ◌||◌,
  ◌==◌, nat_eq, nat_beq_iff, if◌then◌else◌, mem, IsDistinct, mem-without, Option-cases, inl, inr,
}
use codex_python_sdk_unoffic.Common.Dict
use codex_python_sdk_unoffic.Common.Dict.{get-put}
use codex_python_sdk_unoffic.Rpc.Envelope.{JsonRpcNotification}
use codex_python_sdk_unoffic.Rpc.Stream.{put_nowait, is_full, push}
use codex_python_sdk_unoffic.Rpc.Filter.{notification_matches}
use codex_python_sdk_unoffic.Rpc.Notifications.{
  JsonRpcNotificationSubscription, JsonRpcNotificationBus, offer, close_from_bus, overflow_error,
  publish_to, publish_each, publish,
}

abbrev pub object : JsonRpcNotificationBus → ℕ → Option JsonRpcNotificationSubscription
object bus i = Dict.get i bus.objects

abbrev pub offered :
    JsonRpcNotification
    → Option JsonRpcNotificationSubscription
    → Option JsonRpcNotificationSubscription
offered n none = none
offered n (some s) = some (offer s n).0

-- `true` where there is no subscription
abbrev pub stays : JsonRpcNotification → Option JsonRpcNotificationSubscription → Bool
stays n none = true
stays n (some s) = (offer s n).1

object-publish_to :
    (bus : JsonRpcNotificationBus) (n : JsonRpcNotification) (i j : ℕ)
    → object (publish_to bus n i) j ≡ (if i == j then offered n (object bus j) else object bus j)
unfolding publish_to
object-publish_to bus n i j = elim (Option-cases (Dict.get i bus.objects)) [
  | inl miss ↦ rw (miss, publish_to) (ground (arith, nat_beq_iff i j))
  | inr (s, hit) ↦ ground (arith, nat_beq_iff i j, get-put i j (offer s n).0 bus.objects)
]

registered-publish_to :
    (bus : JsonRpcNotificationBus) (n : JsonRpcNotification) (i j : ℕ)
    → mem j (publish_to bus n i).registered
      ≡ (mem j bus.registered && (not (i == j) || stays n (object bus i)))
unfolding publish_to
registered-publish_to bus n i j = ground (arith, mem-without i j bus.registered)

object-publish_each :
    (bus : JsonRpcNotificationBus) (n : JsonRpcNotification) (ids : List ℕ) (j : ℕ)
    → IsDistinct ids
    → object (publish_each bus n ids) j
      ≡ (if mem j ids then offered n (object bus j) else object bus j)
unfolding publish_each mem
object-publish_each bus n [] j d = refl
object-publish_each bus n (i ∷ ids) j d =
    object-publish_each (publish_to bus n i) n ids j d.1
    ∙ ground (arith, object-publish_to bus n i j, nat_beq_iff i j)

registered-publish_each :
    (bus : JsonRpcNotificationBus) (n : JsonRpcNotification) (ids : List ℕ) (j : ℕ)
    → IsDistinct ids
    → mem j (publish_each bus n ids).registered
      ≡ (mem j bus.registered && (not (mem j ids) || stays n (object bus j)))
unfolding publish_each mem
registered-publish_each bus n [] j d = ground arith
registered-publish_each bus n (i ∷ ids) j d =
    registered-publish_each (publish_to bus n i) n ids j d.1
    ∙ ground (arith, object-publish_to bus n i j, registered-publish_to bus n i j, nat_beq_iff i j)

pub publish_open :
    (bus : JsonRpcNotificationBus) (n : JsonRpcNotification)
    → bus.closed ≡ false
    → publish bus n ≡ publish_each bus n bus.registered
unfolding publish
publish_open bus n c = ground arith

pub publish_lem :
    (bus : JsonRpcNotificationBus) (n : JsonRpcNotification) (i : ℕ)
    → bus.closed ≡ false
    → IsDistinct bus.registered
    → (object (publish bus n) i
        ≡ (if mem i bus.registered then offered n (object bus i) else object bus i))
      × (mem i (publish bus n).registered ≡ (mem i bus.registered && stays n (object bus i)))
publish_lem bus n i c d = (
  rw (publish_open bus n c) (object-publish_each bus n bus.registered i d),
  rw (publish_open bus n c) (registered-publish_each bus n bus.registered i d ∙ ground arith),
)

pub publish_delivers :
    (bus : JsonRpcNotificationBus) (n : JsonRpcNotification) (i : ℕ)
    (s : JsonRpcNotificationSubscription)
    → bus.closed ≡ false
    → IsDistinct bus.registered
    → mem i bus.registered ≡ true
    → object bus i ≡ some s
    → s.stream.is_closed ≡ false
    → (notification_matches s.filter n ≡ false
        → (object (publish bus n) i ≡ some s) × (mem i (publish bus n).registered ≡ true))
      × (notification_matches s.filter n ≡ true
          → is_full s.stream ≡ false
          → (object (publish bus n) i ≡ some (record s { stream = push s.stream n }))
            × (mem i (publish bus n).registered ≡ true))
      × (notification_matches s.filter n ≡ true
          → is_full s.stream ≡ true
          → (object (publish bus n) i ≡ some (close_from_bus s (some (overflow_error s))))
            × (mem i (publish bus n).registered ≡ false))
unfolding offer put_nowait
publish_delivers bus n i s c d m o open_stream =
    let p = publish_lem bus n i c d in
    (
      (λ a. (p.0 ∙ ground arith, p.1 ∙ ground arith)),
      (λ a b. (p.0 ∙ ground arith, p.1 ∙ ground arith)),
      (λ a b. (p.0 ∙ ground arith, p.1 ∙ ground arith)),
    )
