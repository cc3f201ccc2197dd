-- ===== src/Tests/Filter.antt =====
-- The subscription filters of src/codex_agent_sdk/rpc/router.py at a concrete message.
use codex_python_sdk_unoffic.Common.{true, none, some, [], ◌∷◌, ◌≡◌, ◌↔◌}
use codex_python_sdk_unoffic.Json.{Json, fields}
use codex_python_sdk_unoffic.Rpc.Envelope.{JsonRpcId, JsonRpcNotification, JsonRpcRequest}
use codex_python_sdk_unoffic.Rpc.Filter.{SubscriptionFilter, notification_matches}
use codex_python_sdk_unoffic.Rpc.Filter.Matching.{
  Grants, Names, HasIds, params_object, notification_matches_iff,
}

abbrev of_thread : SubscriptionFilter
of_thread = record { method = none; thread_id = some "t"; turn_id = none }

abbrev nested : Json
nested = Json.object (fields (("thread", Json.object (fields (("id", Json.text "t") ∷ []))) ∷ []))

abbrev started : JsonRpcNotification
started = record { method = "thread/started"; params = nested; params_present = true }

abbrev asked : JsonRpcRequest
asked = record { id = JsonRpcId.text "1"; method = "ask"; params = nested; params_present = true }

notification_matches_iff_example : (notification_matches of_thread started ≡ true) ↔ (
    Grants (λ w. "thread/started" ≡ w) none
    × HasIds
        (Names "threadId" "thread")
        (Names "turnId" "turn")
        of_thread
        (params_object true nested))
notification_matches_iff_example = notification_matches_iff of_thread started
