-- ===== src/TurnAggregation/Build.antt =====
-- src/codex_agent_sdk/_turn_aggregation.py: what is read off the state, the result of a turn, and
-- `TurnOutputAggregator`.
use Prim.Native.String
use codex_python_sdk_unoffic.Common.{
  String, Bool, false, Option, none, some, List, [], ◌∷◌, ◌++◌, ◌==◌, string_eq, mem, map,
  if◌then◌else◌, or_else,
}
use codex_python_sdk_unoffic.Common.Dict
use codex_python_sdk_unoffic.Common.Dict.{Dict}
use codex_python_sdk_unoffic.Json.{Fields}
use codex_python_sdk_unoffic.TurnAggregation.State.{
  ItemAccess, FragmentKind, agent_text, command_output, file_change_output, plan_text,
  reasoning_text, item_type_of, TurnOutputState, TurnException, codex_error, TurnItemAggregation,
  TurnResult, TurnCompletedEvent, TurnEvent, turn_completed, new_state, fragments, dump_item,
  extract_string, extract_item_id, record_items, observe_turn_event,
}

-- `"".join(fragments)`
unfoldable pub concat : List String → String
concat [] = ""
concat (x ∷ xs) = String.◌++◌ x (concat xs)

-- `"\n\n".join(values)`
abbrev pub join_blocks : String → List String → String
join_blocks x [] = x
join_blocks x (y ∷ ys) = String.◌++◌ x (String.◌++◌ "\n\n" (join_blocks y ys))

abbrev pub present : List (Option String) → List String
present [] = []
present (none ∷ xs) = present xs
present (some x ∷ xs) = x ∷ present xs

unfoldable pub join_item_values : List (Option String) → Option String
join_item_values values = elim (present values) [ [] ↦ none | x ∷ xs ↦ some (join_blocks x xs) ]

unfoldable pub assemble_item_text : Option (List String) → Option String → Option String
unfolding concat
assemble_item_text none fallback = fallback
assemble_item_text (some l) none = some (concat l)
assemble_item_text (some l) (some fallback) = some (if concat l == "" then fallback else concat l)

abbrev pub is_of_type : Option String → String → Bool
is_of_type none t = false
is_of_type (some u) t = u == t

-- Texts lie under "text"; outputs under either spelling of the aggregated output.
unfoldable pub fallback_of : FragmentKind → Fields → Option String
unfolding extract_string
fallback_of command_output fs =
    or_else (extract_string fs "aggregated_output") (extract_string fs "aggregatedOutput")
fallback_of file_change_output fs =
    or_else (extract_string fs "aggregated_output") (extract_string fs "aggregatedOutput")
fallback_of _ fs = extract_string fs "text"

unfoldable pub extract_fallback : FragmentKind → Option Fields → Option String → Option String
unfolding fallback_of
extract_fallback k none t = none
extract_fallback k (some fs) t = if is_of_type t (item_type_of k) then fallback_of k fs else none

-- `_extract_item_type(item_data) or item_type`: an empty type gives way too
unfoldable pub resolved_type : Option Fields → Option String → Option String
unfolding extract_string
resolved_type none t = t
resolved_type (some fs) t = elim (extract_string fs "type") [
  | none ↦ t
  | some own ↦ if own == "" then t else some own
]

-- the ids in order that are not seen yet, each once
unfoldable pub unseen : List String → List String → List String
unseen seen [] = []
unseen seen (i ∷ ids) =
    let rest = unseen (i ∷ seen) ids in if mem i seen then unseen seen ids else i ∷ rest

module _ {A : Type 0} (access : ItemAccess A) where
  unfoldable pub item_ids : List A → List String
  unfolding extract_item_id
  item_ids [] = []
  item_ids (item ∷ items) = elim (extract_item_id access item) [
    | none ↦ item_ids items
    | some i ↦ i ∷ item_ids items
  ]

  -- `resolved_items_by_id`
  unfoldable pub resolve_items_by_id : Dict String A → List A → Dict String A
  unfolding extract_item_id
  resolve_items_by_id d [] = d
  resolve_items_by_id d (item ∷ items) = elim (extract_item_id access item) [
    | none ↦ resolve_items_by_id d items
    | some i ↦ resolve_items_by_id (Dict.put i item d) items
  ]

unfoldable pub streamed_from : {A : Type 0} → Dict String A → List String → List A
streamed_from d [] = []
streamed_from d (i ∷ ids) = elim (Dict.get i d) [
  | none ↦ streamed_from d ids
  | some item ↦ item ∷ streamed_from d ids
]

module _ {A U : Type 0} where
  unfoldable pub assembled :
      TurnOutputState A U → FragmentKind → String → Option Fields → Option String → Option String
  unfolding assemble_item_text extract_fallback
  assembled s k i data_ t =
      assemble_item_text (Dict.get i (fragments k s)) (extract_fallback k data_ t)

module _ {A U : Type 0} (access : ItemAccess A) where
  -- One loop after the other, with one set of seen ids, is one loop over both lists.
  unfoldable pub resolve_item_ids : TurnOutputState A U → List A → List String
  unfolding unseen item_ids
  resolve_item_ids s items = unseen [] (item_ids access items ++ s.item_ids_in_order)

  -- one round of the loop of `_build_item_aggregations`
  unfoldable pub aggregate_item :
      TurnOutputState A U → Dict String A → String → TurnItemAggregation A
  unfolding dump_item resolved_type assembled
  aggregate_item s items i =
      let item = Dict.get i items in
      let data_ = dump_item access item in
      let t = resolved_type data_ (Dict.get i s.item_types_by_id) in
      record {
        item_id = i;
        item_type = t;
        item = item;
        agent_text = assembled s agent_text i data_ t;
        reasoning_text = assembled s reasoning_text i data_ t;
        command_output = assembled s command_output i data_ t;
        file_change_output = assembled s file_change_output i data_ t;
        plan_text = assembled s plan_text i data_ t;
      }

  unfoldable pub build_item_aggregations :
      TurnOutputState A U → List A → List (TurnItemAggregation A)
  unfolding resolve_item_ids resolve_items_by_id aggregate_item
  build_item_aggregations s items =
      map (aggregate_item s (resolve_items_by_id access s.items_by_id items))
        (resolve_item_ids s items)

  unfoldable pub resolve_streamed_items : TurnOutputState A U → List A
  unfolding streamed_from
  resolve_streamed_items s = streamed_from s.items_by_id s.item_ids_in_order

  unfoldable pub resolve_turn_items : TurnOutputState A U → List A → List A
  unfolding resolve_streamed_items
  resolve_turn_items s [] = resolve_streamed_items s
  resolve_turn_items s (item ∷ items) = item ∷ items

abbrev pub agent_texts : {A : Type 0} → List (TurnItemAggregation A) → List (Option String)
agent_texts {A = A} = map (λ (x : TurnItemAggregation A). x.agent_text)

-- A status is read by its `value` attribute if that is a text, and as a text itself otherwise.
pub record TurnStatus : Type 0 where
  pub value : Option String
  pub itself : Option String

abbrev pub snake_status : String → String
snake_status v = if v == "inProgress" then "in_progress" else v

-- `none` for the `TypeError`
unfoldable pub normalize_turn_status : TurnStatus → Option String
normalize_turn_status s = elim (or_else s.value s.itself) [
  | none ↦ none
  | some v ↦ some (snake_status v)
]

-- what `build_turn_result` reads of a `TurnCompletedNotification`; an error by its message
pub record TurnCompletion (A : Type 0) : Type 0 where
  pub thread_id : String
  pub turn_id : String
  pub turn_status : TurnStatus
  pub items : List A
  pub error_message : Option String

abbrev pub turn_error_to_exception : Option String → Option TurnException
turn_error_to_exception none = none
turn_error_to_exception (some m) = some (codex_error m)

pub record TurnOutputAggregator (A U : Type 0) : Type 0 where
  pub result : Option (TurnResult A U)
  pub state : TurnOutputState A U

module _ {A U : Type 0} where
  abbrev pub new_aggregator : TurnOutputAggregator A U
  new_aggregator = record { result = none; state = new_state }

module _ {A U : Type 0} (access : ItemAccess A) where
  -- The items are recorded before the status is read, so they stay recorded if it is refused.
  unfoldable pub build_turn_result :
      TurnCompletion A → TurnOutputState A U → TurnOutputState A U × Option (TurnResult A U)
  unfolding record_items build_item_aggregations resolve_turn_items join_item_values
      normalize_turn_status
  build_turn_result c s =
      let s' = record_items access s c.items in
      let aggregations = build_item_aggregations access s' c.items in
      (
        s',
        elim (normalize_turn_status c.turn_status) [
          | none ↦ none
          | some status ↦ some (record {
            thread_id = c.thread_id;
            turn_id = c.turn_id;
            status = status;
            items = resolve_turn_items access s' c.items;
            token_usage = s'.latest_token_usage;
            error = turn_error_to_exception c.error_message;
            assistant_text = join_item_values (agent_texts aggregations);
            structured_output = none;
            item_aggregations = aggregations;
          })
        ],
      )

  unfoldable pub build_snapshot_turn_result :
      TurnCompletedEvent A U → TurnOutputState A U → TurnResult A U
  unfolding build_item_aggregations resolve_streamed_items join_item_values
  build_snapshot_turn_result e s =
      let aggregations = build_item_aggregations access s [] in
      record {
        thread_id = e.thread_id;
        turn_id = e.turn_id;
        status = e.turn_status;
        items = resolve_streamed_items access s;
        token_usage = s.latest_token_usage;
        error = e.error;
        assistant_text = join_item_values (agent_texts aggregations);
        structured_output = none;
        item_aggregations = aggregations;
      }

  unfoldable pub observe : TurnOutputAggregator A U → TurnEvent A U → TurnOutputAggregator A U
  unfolding observe_turn_event build_snapshot_turn_result
  observe a (turn_completed e) =
      let s = observe_turn_event access (turn_completed e) a.state in
      record {
        result = some (elim e.result [ none ↦ build_snapshot_turn_result e s | some r ↦ r ]);
        state = s;
      }
  observe a e = record a { state = observe_turn_event access e a.state }

  -- the properties of the aggregator
  unfoldable pub assistant_text : TurnOutputAggregator A U → Option String
  unfolding build_item_aggregations join_item_values
  assistant_text a = elim a.result [
    | none ↦ join_item_values (agent_texts (build_item_aggregations access a.state []))
    | some r ↦ r.assistant_text
  ]

  unfoldable pub item_aggregations : TurnOutputAggregator A U → List (TurnItemAggregation A)
  unfolding build_item_aggregations
  item_aggregations a = elim a.result [
    | none ↦ build_item_aggregations access a.state []
    | some r ↦ r.item_aggregations
  ]

  unfoldable pub items : TurnOutputAggregator A U → List A
  unfolding resolve_streamed_items
  items a = elim a.result [ none ↦ resolve_streamed_items access a.state | some r ↦ r.items ]

  -- `command_output`, `file_change_output`, `plan_text` and `reasoning_text`, by their field
  unfoldable pub joined :
      (TurnItemAggregation A → Option String) → TurnOutputAggregator A U → Option String
  unfolding item_aggregations join_item_values
  joined f a = join_item_values (map f (item_aggregations a))
