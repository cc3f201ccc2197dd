-- ===== src/Rpc/Filter.antt =====
-- src/codex_agent_sdk/rpc/router.py: the filters of notification and server-request
-- subscriptions, and how a message's thread and turn ids are found.
pub mod Matching
use codex_python_sdk_unoffic.Common.{
  String, Bool, true, false, Option, none, some, ◌==◌, string_eq, if◌then◌else◌, ◌&&◌, not,
}
use codex_python_sdk_unoffic.Json.{Json, Fields, field_or_null, as_text, as_object}
use codex_python_sdk_unoffic.Rpc.Envelope.{JsonRpcNotification, JsonRpcRequest}

-- the fields of `_NotificationSubscriptionFilter` and of `_ServerRequestSubscriptionFilter`
pub record SubscriptionFilter : Type 0 where
  pub method : Option String
  pub thread_id : Option String
  pub turn_id : Option String

-- `payload[outer]["id"]`, if both are there with their types
unfoldable pub nested_id : String → Fields → Option String
nested_id outer params = elim (as_object (field_or_null outer params)) [
  | none ↦ none
  | some inner ↦ as_text (field_or_null "id" inner)
]

unfoldable pub direct_or_nested : String → String → Fields → Option String
unfolding nested_id
direct_or_nested direct outer params = elim (as_text (field_or_null direct params)) [
  | some s ↦ some s
  | none ↦ nested_id outer params
]

unfoldable pub extract_notification_thread_id : Fields → Option String
unfolding direct_or_nested
extract_notification_thread_id params = direct_or_nested "threadId" "thread" params

unfoldable pub extract_notification_turn_id : Fields → Option String
unfolding direct_or_nested
extract_notification_turn_id params = direct_or_nested "turnId" "turn" params

unfoldable pub extract_server_request_thread_id : Fields → Option String
extract_server_request_thread_id params = as_text (field_or_null "threadId" params)

unfoldable pub extract_server_request_turn_id : Fields → Option String
extract_server_request_turn_id params = as_text (field_or_null "turnId" params)

-- `wanted is not None and found != wanted`
unfoldable pub excludes : Option String → Option String → Bool
excludes none found = false
excludes (some w) none = true
excludes (some w) (some f) = not (f == w)

unfoldable pub is_unset : Option String → Bool
is_unset none = true
is_unset (some w) = false

-- The body that the two `matches` methods share, over their two ways to find the ids.
unfoldable pub matches_by :
    (Fields → Option String)
    → (Fields → Option String)
    → SubscriptionFilter
    → String
    → Json
    → Bool
    → Bool
unfolding is_unset
matches_by thread_of turn_of filter method params has_params =
    if excludes filter.method (some method)
    then false
    else if is_unset filter.thread_id && is_unset filter.turn_id
    then true
    else elim (as_object (if has_params then params else Json.null)) [
      | none ↦ false
      | some fields ↦
          if excludes filter.thread_id (thread_of fields)
          then false
          else if excludes filter.turn_id (turn_of fields)
          then false
          else true
    ]

unfoldable pub notification_matches : SubscriptionFilter → JsonRpcNotification → Bool
notification_matches filter n =
    matches_by extract_notification_thread_id extract_notification_turn_id filter n.method n.params
      n.params_present

unfoldable pub server_request_matches : SubscriptionFilter → JsonRpcRequest → Bool
server_request_matches filter r =
    matches_by extract_server_request_thread_id extract_server_request_turn_id filter r.method
      r.params r.params_present
