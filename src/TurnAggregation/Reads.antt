-- ===== src/TurnAggregation/Reads.antt =====
-- src/codex_agent_sdk/_turn_aggregation.py: what a caller of `TurnOutputAggregator` reads.
use codex_python_sdk_unoffic.Common.{String, Bool, true, false, Option, List, [], ◌∷◌, ◌≡◌, map}
use codex_python_sdk_unoffic.TurnAggregation.State.{
  ItemAccess, TurnEvent, turn_completed, TurnResult, TurnItemAggregation,
}
use codex_python_sdk_unoffic.TurnAggregation.Build.{
  TurnOutputAggregator, observe, assistant_text, item_aggregations, items, joined, join_item_values,
}

module _ {A U : Type 0} where
  abbrev pub is_completed : TurnEvent A U → Bool
  is_completed (turn_completed e) = true
  is_completed _ = false

  abbrev pub IsOpen : List (TurnEvent A U) → Type 0
  IsOpen [] = Unit
  IsOpen (e ∷ es) = (is_completed e ≡ false) × IsOpen es

module _ {A U : Type 0} (access : ItemAccess A) where
  abbrev pub observe_events :
      TurnOutputAggregator A U → List (TurnEvent A U) → TurnOutputAggregator A U
  observe_events a [] = a
  observe_events a (e ∷ es) = observe_events (observe access a e) es

  -- the reads of an aggregator whose turn has the result
  abbrev pub Reports : TurnOutputAggregator A U → TurnResult A U → Type 0
  Reports a r =
      (assistant_text access a ≡ r.assistant_text)
      × (items access a ≡ r.items)
      × (item_aggregations access a ≡ r.item_aggregations)
      × ((f : TurnItemAggregation A → Option String)
          → joined access f a ≡ join_item_values (map f r.item_aggregations))
