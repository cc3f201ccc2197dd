-- ===== src/Tests/Notifications.antt =====
-- The notification bus at work: a full queue, a filtered subscription, reading after a close.
use codex_python_sdk_unoffic.Common.{
  String, true, false, none, some, [], ◌∷◌, ◌≡◌, refl, arith, mem, nat_eq,
}
use codex_python_sdk_unoffic.Common.Dict
use codex_python_sdk_unoffic.Json.{Json}
use codex_python_sdk_unoffic.Rpc.Envelope.{JsonRpcNotification}
use codex_python_sdk_unoffic.Rpc.Requests.{external}
use codex_python_sdk_unoffic.Rpc.Stream
use codex_python_sdk_unoffic.Rpc.Stream.{InboundMessageStream, iter_items, push, put_nowait}
use codex_python_sdk_unoffic.Rpc.Stream.Drain.{closing, iter_items-close}
use codex_python_sdk_unoffic.Rpc.Filter.{
  SubscriptionFilter, notification_matches, matches_by, is_unset, excludes,
}
use codex_python_sdk_unoffic.Rpc.Notifications.{
  empty, new_bus, JsonRpcNotificationBus, JsonRpcNotificationSubscription, subscribe, publish,
  publish_each, publish_to, offer, close_from_bus, overflow_error, new_subscription,
  coerce_max_queue_size,
}
use codex_python_sdk_unoffic.Rpc.Notifications.Bounds.{IsValid}
use codex_python_sdk_unoffic.Rpc.Notifications.Reachable.{
  here, next, subscribed, bus_always_IsValid,
}
use codex_python_sdk_unoffic.Rpc.Notifications.Delivery.{object}
use codex_python_sdk_unoffic.Rpc.Notifications.Order.{publish_all, extend, publish_all_in_order}

abbrev note : String → JsonRpcNotification
note m = record { method = m; params = Json.null; params_present = false }

abbrev only : String → SubscriptionFilter
only m = record { method = some m; thread_id = none; turn_id = none }

abbrev watcher : JsonRpcNotificationSubscription
watcher = record {
  filter = only "a";
  stream = record { max_queue_size = 1; queue = []; is_closed = false; terminal_error = none };
  closed = false;
}

abbrev pub watched : JsonRpcNotificationBus
watched = record {
  default_max_queue_size = 256;
  next_subscription_id = 1;
  objects = (1, watcher) ∷ [];
  registered = 1 ∷ [];
  closed = false;
  terminal_error = none;
}

subscribes : subscribe (empty 256) (only "a") (some 1) ≡ some (watched, 1)
unfolding subscribe coerce_max_queue_size new_subscription Dict.put
subscribes = refl

pub watched-IsValid : IsValid watched
unfolding new_bus
watched-IsValid =
    bus_always_IsValid 256 (empty 256) watched refl
      (next here (subscribed (empty 256) watched (only "a") (some 1) 1 subscribes))

bus_always_IsValid_example : IsValid watched
unfolding new_bus
bus_always_IsValid_example =
    bus_always_IsValid 256 (empty 256) watched refl
      (next here (subscribed (empty 256) watched (only "a") (some 1) 1 subscribes))

-- The second notification that matches overflows the queue of one.
overflows :
    object (publish (publish watched (note "a")) (note "a")) 1
    ≡ some (record watcher {
      closed = true;
      stream = record {
        max_queue_size = 1;
        queue = note "a" ∷ [];
        is_closed = true;
        terminal_error = some (overflow_error watcher);
      };
    })
unfolding publish publish_each publish_to offer put_nowait Stream.close close_from_bus
    overflow_error notification_matches matches_by is_unset excludes Dict.get Dict.put mem
overflows = refl

publish_all_in_order_example :
    (object (publish_all watched (note "b" ∷ note "a" ∷ note "c" ∷ [])) 1
      ≡ some (extend watcher (note "a" ∷ [])))
    × (mem 1 (publish_all watched (note "b" ∷ note "a" ∷ note "c" ∷ [])).registered ≡ true)
unfolding mem Dict.get notification_matches matches_by is_unset excludes
publish_all_in_order_example =
    publish_all_in_order watched (note "b" ∷ note "a" ∷ note "c" ∷ []) 1 watcher watched-IsValid
      refl refl refl refl (omega arith)

iter_items-close_example :
    iter_items 2 (Stream.close (push watcher.stream (note "a")) (some (external "boom")))
    ≡ (note "a" ∷ [], closing (some (external "boom")))
iter_items-close_example =
    iter_items-close (push watcher.stream (note "a")) (some (external "boom")) 2 (omega arith)
