-- ===== src/TurnAggregation/State.antt =====
-- src/codex_agent_sdk/_turn_aggregation.py: `TurnOutputState` and how events change it.
--
-- An item is an object of a generated model class or a mapping. What Python asks of it stands in
-- `ItemAccess`: its `root` attribute, its entries if it is a mapping, and its `model_dump`.
use codex_python_sdk_unoffic.Common.{
  String, Option, none, some, List, [], ◌∷◌, ◌++◌, ◌==◌, string_eq, mem, if◌then◌else◌,
}
use codex_python_sdk_unoffic.Common.Dict
use codex_python_sdk_unoffic.Common.Dict.{Dict}
use codex_python_sdk_unoffic.Json.{Json, Fields, field_or_null, as_text, as_object}

pub record ItemAccess (A : Type 0) : Type 0 where
  pub root : A → Option A
  pub as_mapping : A → Option Fields
  pub model_dump : A → Option Json

-- the five dictionaries of fragments, each with its item type
pub data FragmentKind : Type 0 where
  agent_text command_output file_change_output plan_text reasoning_text : FragmentKind

abbrev pub item_type_of : FragmentKind → String
item_type_of agent_text = "agentMessage"
item_type_of command_output = "commandExecution"
item_type_of file_change_output = "fileChange"
item_type_of plan_text = "plan"
item_type_of reasoning_text = "reasoning"

pub record TurnOutputState (A U : Type 0) : Type 0 where
  pub agent_text_fragments_by_item_id : Dict String (List String)
  pub command_output_fragments_by_item_id : Dict String (List String)
  pub file_change_output_fragments_by_item_id : Dict String (List String)
  pub item_ids_in_order : List String
  pub item_types_by_id : Dict String String
  pub items_by_id : Dict String A
  pub latest_token_usage : Option U
  pub plan_text_fragments_by_item_id : Dict String (List String)
  pub reasoning_text_fragments_by_item_id : Dict String (List String)

-- `CodexError` with its message, or an exception from elsewhere
pub data TurnException : Type 0 where
  codex_error : String → TurnException
  other : String → TurnException

pub record TurnItemAggregation (A : Type 0) : Type 0 where
  pub item_id : String
  pub item_type : Option String
  pub item : Option A
  pub agent_text : Option String
  pub reasoning_text : Option String
  pub command_output : Option String
  pub file_change_output : Option String
  pub plan_text : Option String

pub record TurnResult (A U : Type 0) : Type 0 where
  pub thread_id : String
  pub turn_id : String
  pub status : String
  pub items : List A
  pub token_usage : Option U
  pub error : Option TurnException
  pub assistant_text : Option String
  pub structured_output : Option Json
  pub item_aggregations : List (TurnItemAggregation A)

pub record TurnCompletedEvent (A U : Type 0) : Type 0 where
  pub thread_id : String
  pub turn_id : String
  pub turn_status : String
  pub error : Option TurnException
  pub result : Option (TurnResult A U)

-- The usage of `token_usage_updated` is there when it is a `ThreadTokenUsage`.
pub data TurnEvent (A U : Type 0) : Type 0 where
  turn_started approval_requested thread_status_changed raw_server_request : TurnEvent A U
  turn_completed : TurnCompletedEvent A U → TurnEvent A U
  agent_text_delta reasoning_text_delta command_output_delta : String → String → TurnEvent A U
  item_started item_completed : A → TurnEvent A U
  token_usage_updated : Option U → TurnEvent A U
  raw_notification : String → Json → TurnEvent A U

abbrev pub or_empty : Option (List String) → List String
or_empty none = []
or_empty (some l) = l

-- `setdefault(item_id, item_type)`
abbrev pub default_type : Dict String String → String → Option String → Dict String String
default_type d i none = d
default_type d i (some t) = if Dict.has i d then d else Dict.put i t d

module _ {A U : Type 0} where
  abbrev pub new_state : TurnOutputState A U
  new_state = record {
    agent_text_fragments_by_item_id = [];
    command_output_fragments_by_item_id = [];
    file_change_output_fragments_by_item_id = [];
    item_ids_in_order = [];
    item_types_by_id = [];
    items_by_id = [];
    latest_token_usage = none;
    plan_text_fragments_by_item_id = [];
    reasoning_text_fragments_by_item_id = [];
  }

  abbrev pub fragments : FragmentKind → TurnOutputState A U → Dict String (List String)
  fragments agent_text s = s.agent_text_fragments_by_item_id
  fragments command_output s = s.command_output_fragments_by_item_id
  fragments file_change_output s = s.file_change_output_fragments_by_item_id
  fragments plan_text s = s.plan_text_fragments_by_item_id
  fragments reasoning_text s = s.reasoning_text_fragments_by_item_id

  abbrev pub with_fragments :
      FragmentKind → Dict String (List String) → TurnOutputState A U → TurnOutputState A U
  with_fragments agent_text d s = record s { agent_text_fragments_by_item_id = d }
  with_fragments command_output d s = record s { command_output_fragments_by_item_id = d }
  with_fragments file_change_output d s = record s { file_change_output_fragments_by_item_id = d }
  with_fragments plan_text d s = record s { plan_text_fragments_by_item_id = d }
  with_fragments reasoning_text d s = record s { reasoning_text_fragments_by_item_id = d }

  unfoldable pub ensure_item_slot :
      TurnOutputState A U → String → Option String → TurnOutputState A U
  ensure_item_slot s i t = record s {
    item_ids_in_order =
        if mem i s.item_ids_in_order then s.item_ids_in_order else s.item_ids_in_order ++ i ∷ [];
    item_types_by_id = default_type s.item_types_by_id i t;
  }

  -- `fragments_by_item_id.setdefault(item_id, []).append(fragment)`
  abbrev pub add_fragment :
      FragmentKind → String → String → TurnOutputState A U → TurnOutputState A U
  add_fragment k i text s =
      with_fragments k
        (Dict.put i (or_empty (Dict.get i (fragments k s)) ++ text ∷ []) (fragments k s)) s

  unfoldable pub append_item_fragment :
      FragmentKind → String → String → TurnOutputState A U → TurnOutputState A U
  unfolding ensure_item_slot
  append_item_fragment k i text s =
      add_fragment k i text (ensure_item_slot s i (some (item_type_of k)))

-- `_RAW_ITEM_DELTA_HANDLERS`
unfoldable pub raw_item_delta_handler : String → Option FragmentKind
raw_item_delta_handler m =
    if m == "item/agentMessage/delta"
    then some agent_text
    else if m == "item/commandExecution/outputDelta"
    then some command_output
    else if m == "item/fileChange/outputDelta"
    then some file_change_output
    else if m == "item/plan/delta"
    then some plan_text
    else if m == "item/reasoning/summaryTextDelta"
    then some reasoning_text
    else if m == "item/reasoning/textDelta"
    then some reasoning_text
    else none

abbrev pub both : Option String → Option String → Option (String × String)
both (some i) (some d) = some (i, d)
both _ _ = none

unfoldable pub extract_raw_item_delta_fields : Json → Option (String × String)
extract_raw_item_delta_fields (Json.object fs) =
    both (as_text (field_or_null "itemId" fs)) (as_text (field_or_null "delta" fs))
extract_raw_item_delta_fields _ = none

-- `_extract_string` for one key
unfoldable pub extract_string : Fields → String → Option String
extract_string fs key = as_text (field_or_null key fs)

-- what a raw notification adds: the kind, the item and the fragment
unfoldable pub raw_delta : String → Json → Option (FragmentKind × (String × String))
unfolding raw_item_delta_handler extract_raw_item_delta_fields
raw_delta m params = elim (raw_item_delta_handler m) [
  | none ↦ none
  | some k ↦ elim (extract_raw_item_delta_fields params) [ none ↦ none | some f ↦ some (k, f) ]
]

module _ {A U : Type 0} where
  unfoldable pub observe_raw_notification_event :
      String → Json → TurnOutputState A U → TurnOutputState A U
  unfolding append_item_fragment raw_delta
  observe_raw_notification_event m params s = elim (raw_delta m params) [
    | none ↦ s
    | some d ↦ append_item_fragment d.0 d.1.0 d.1.1 s
  ]

module _ {A : Type 0} (access : ItemAccess A) where
  unfoldable pub dump_object : A → Option Fields
  dump_object item = elim (access.as_mapping item) [
    | some fs ↦ some fs
    | none ↦ elim (access.model_dump item) [ none ↦ none | some dumped ↦ as_object dumped ]
  ]

  unfoldable pub dump_item : Option A → Option Fields
  dump_item none = none
  dump_item (some item) = elim (access.root item) [
    | none ↦ dump_object item
    | some r ↦ dump_object r
  ]

  unfoldable pub extract_item_id : A → Option String
  unfolding dump_item extract_string
  extract_item_id item = elim (dump_item (some item)) [
    | none ↦ none
    | some fs ↦ extract_string fs "id"
  ]

  abbrev pub item_type_field : A → Option String
  item_type_field item = elim (dump_item (some item)) [
    | none ↦ none
    | some fs ↦ extract_string fs "type"
  ]

module _ {A U : Type 0} (access : ItemAccess A) where
  -- An item has an id only if it can be dumped, so one test covers both early returns.
  unfoldable pub record_item : TurnOutputState A U → A → TurnOutputState A U
  unfolding ensure_item_slot extract_item_id
  record_item s item = elim (extract_item_id access item) [
    | none ↦ s
    | some i ↦
        let slotted = ensure_item_slot s i (item_type_field access item) in
        record slotted { items_by_id = Dict.put i item slotted.items_by_id }
  ]

  unfoldable pub record_items : TurnOutputState A U → List A → TurnOutputState A U
  unfolding record_item
  record_items s [] = s
  record_items s (item ∷ items) = record_items (record_item s item) items

  unfoldable pub observe_turn_event : TurnEvent A U → TurnOutputState A U → TurnOutputState A U
  unfolding append_item_fragment record_item observe_raw_notification_event
  observe_turn_event (agent_text_delta i text) s = append_item_fragment agent_text i text s
  observe_turn_event (command_output_delta i text) s = append_item_fragment command_output i text s
  observe_turn_event (reasoning_text_delta i text) s = append_item_fragment reasoning_text i text s
  observe_turn_event (item_started item) s = record_item s item
  observe_turn_event (item_completed item) s = record_item s item
  observe_turn_event (token_usage_updated (some usage)) s = record s {
    latest_token_usage = some usage;
  }
  observe_turn_event (raw_notification m params) s = observe_raw_notification_event m params s
  observe_turn_event _ s = s
