-- ===== src/Tests/Turns.antt =====
-- src/codex_agent_sdk/_turn_aggregation.py at concrete events. Items are JSON objects.
use codex_python_sdk_unoffic.Common.{
  ℕ, String, true, none, some, List, [], ◌∷◌, ◌++◌, ◌≡◌, ◌≢◌, arith, string_eq, mem, IsDistinct,
  ◌||◌,
}
use codex_python_sdk_unoffic.Json.{Json, fields, as_object}
use codex_python_sdk_unoffic.TurnAggregation.State.{
  ItemAccess, new_state, agent_text, TurnEvent, TurnOutputState, TurnCompletedEvent,
  agent_text_delta, item_completed, raw_notification,
}
use codex_python_sdk_unoffic.TurnAggregation.Build.{
  concat, unseen, item_ids, assembled, extract_fallback, build_item_aggregations,
}
use codex_python_sdk_unoffic.TurnAggregation.Ids.{ids_of, aggregations_in_order}
use codex_python_sdk_unoffic.TurnAggregation.Texts.{deltas, observe_all, streamed_text}
use codex_python_sdk_unoffic.TurnAggregation.Slots.{streamed_item_listed}

abbrev json_items : ItemAccess Json
json_items = record { root = λ v. none; as_mapping = as_object; model_dump = λ v. none }

abbrev message : Json
message = Json.object (
    fields (
      ("id", Json.text "m")
      ∷ ("type", Json.text "agentMessage")
      ∷ ("text", Json.text "Hello")
      ∷ []))

abbrev raw_params : Json
raw_params = Json.object (fields (("itemId", Json.text "m") ∷ ("delta", Json.text "lo") ∷ []))

-- a streamed message, with an item of another kind in between
abbrev events : List (TurnEvent Json ℕ)
events =
    agent_text_delta "m" "Hel"
    ∷ agent_text_delta "n" "other"
    ∷ raw_notification "item/agentMessage/delta" raw_params
    ∷ item_completed message
    ∷ []

abbrev seen : TurnOutputState Json ℕ
seen = observe_all json_items events new_state

aggregations_in_order_example :
    (ids_of (build_item_aggregations json_items seen (message ∷ []))
      ≡ unseen [] (item_ids json_items (message ∷ []))
        ++ unseen (item_ids json_items (message ∷ [])) seen.item_ids_in_order)
    × IsDistinct (ids_of (build_item_aggregations json_items seen (message ∷ [])))
    × ((i : String)
        → mem i (ids_of (build_item_aggregations json_items seen (message ∷ [])))
          ≡ (mem i (item_ids json_items (message ∷ [])) || mem i seen.item_ids_in_order))
aggregations_in_order_example = aggregations_in_order json_items seen (message ∷ [])

streamed_text_example :
    (concat (deltas agent_text "m" events) ≢ ""
      → assembled seen agent_text "m" none none ≡ some (concat (deltas agent_text "m" events)))
    × (deltas agent_text "m" events ≡ []
        → assembled seen agent_text "m" none none ≡ extract_fallback agent_text none none)
streamed_text_example = streamed_text json_items agent_text "m" events none none

streamed_item_listed_example : mem "m" (ids_of (build_item_aggregations json_items seen [])) ≡ true
streamed_item_listed_example =
    streamed_item_listed json_items agent_text "m" events [] (λ e. ground (arith, e))

abbrev completion : TurnCompletedEvent Json ℕ
completion = record {
  thread_id = "t";
  turn_id = "u";
  turn_status = "completed";
  error = none;
  result = none;
}
