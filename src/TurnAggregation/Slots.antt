-- ===== src/TurnAggregation/Slots.antt =====
-- src/codex_agent_sdk/_turn_aggregation.py: nothing that was streamed is left out of the result.
use codex_python_sdk_unoffic.Common.{
  String, true, Option, none, some, List, [], ◌∷◌, ◌≡◌, ◌≢◌, refl, arith, string_eq, mem,
  IsDistinct, ◌||◌, ◌==◌, eq_iff, mem-append, append-IsDistinct, Bool-cases, inl, inr,
}
use codex_python_sdk_unoffic.Common.Dict
use codex_python_sdk_unoffic.Common.Dict.{get-put}
use codex_python_sdk_unoffic.Json.{Json}
use codex_python_sdk_unoffic.TurnAggregation.State.{
  ItemAccess, new_state, FragmentKind, TurnOutputState, TurnEvent, item_type_of, agent_text,
  command_output, reasoning_text, agent_text_delta, reasoning_text_delta, command_output_delta,
  item_started, item_completed, token_usage_updated, raw_notification, fragments, ensure_item_slot,
  append_item_fragment, extract_item_id, item_type_field, record_item, raw_delta,
  observe_raw_notification_event, observe_turn_event,
}
use codex_python_sdk_unoffic.TurnAggregation.Build.{build_item_aggregations}
use codex_python_sdk_unoffic.TurnAggregation.Ids.{ids_of, aggregations_in_order}
use codex_python_sdk_unoffic.TurnAggregation.Texts.{
  deltas, observe_all, fragments-append, streamed_present,
}

module _ {A U : Type 0} where
  -- Each id is listed once, and whatever has a fragment or an item is listed.
  pub record IsSlotted (s : TurnOutputState A U) : Type 0 where
    pub distinct : IsDistinct s.item_ids_in_order
    pub has_text :
        (k : FragmentKind) (i : String)
        → Dict.get i (fragments k s) ≢ none
        → mem i s.item_ids_in_order ≡ true
    pub has_item : (i : String) → Dict.get i s.items_by_id ≢ none → mem i s.item_ids_in_order ≡ true

  mem-ensure :
      (s : TurnOutputState A U) (n i : String) (t : Option String)
      → mem i (ensure_item_slot s n t).item_ids_in_order ≡ (mem i s.item_ids_in_order || n == i)
  unfolding ensure_item_slot
  mem-ensure s n i t = ground (arith, eq_iff n i, mem-append n i s.item_ids_in_order)

  ensure-IsDistinct :
      (s : TurnOutputState A U) (n : String) (t : Option String)
      → IsDistinct s.item_ids_in_order
      → IsDistinct (ensure_item_slot s n t).item_ids_in_order
  unfolding ensure_item_slot
  ensure-IsDistinct s n t h = elim (Bool-cases (mem n s.item_ids_in_order)) [
    | inl old ↦ rw old h
    | inr new ↦ rw new (append-IsDistinct n s.item_ids_in_order h new)
  ]

  ensure-IsSlotted :
      (s : TurnOutputState A U) (n : String) (t : Option String)
      → IsSlotted s
      → IsSlotted (ensure_item_slot s n t)
  unfolding ensure_item_slot
  ensure-IsSlotted s n t v = record {
    distinct = ensure-IsDistinct s n t v.distinct;
    has_text = λ k i h. ground (arith, mem-ensure s n i t, v.has_text k i);
    has_item = λ i h. ground (arith, mem-ensure s n i t, v.has_item i);
  }

  append_tables :
      (j : FragmentKind) (n text : String) (s : TurnOutputState A U)
      → ((append_item_fragment j n text s).item_ids_in_order
          ≡ (ensure_item_slot s n (some (item_type_of j))).item_ids_in_order)
        × ((append_item_fragment j n text s).items_by_id ≡ s.items_by_id)
  unfolding append_item_fragment ensure_item_slot
  append_tables j n text s = ground arith

  append-IsSlotted :
      (j : FragmentKind) (n text : String) (s : TurnOutputState A U)
      → IsSlotted s
      → IsSlotted (append_item_fragment j n text s)
  append-IsSlotted j n text s v =
      let tables = append_tables j n text s in
      let t = some (item_type_of j) in
      record {
        distinct = rw (tables.0) (ensure-IsDistinct s n t v.distinct);
        has_text = λ k i h. rw (tables.0) (
            ground (
              arith,
              h,
              eq_iff n i,
              fragments-append j k i n text s,
              mem-ensure s n i t,
              v.has_text k i,
            ));
        has_item =
            λ i h. rw (tables.0) (ground (arith, h, tables.1, mem-ensure s n i t, v.has_item i));
      }

  put-IsSlotted :
      (s : TurnOutputState A U) (n : String) (item : A)
      → mem n s.item_ids_in_order ≡ true
      → IsSlotted s
      → IsSlotted (record s { items_by_id = Dict.put n item s.items_by_id })
  put-IsSlotted s n item m v = record {
    distinct = v.distinct;
    has_text = λ k i h. v.has_text k i (ground (arith, h));
    has_item =
        λ i h. ground (arith, h, m, eq_iff n i, get-put n i item s.items_by_id, v.has_item i);
  }

  raw-IsSlotted :
      (m : String) (params : Json) (s : TurnOutputState A U)
      → IsSlotted s
      → IsSlotted (observe_raw_notification_event m params s)
  unfolding observe_raw_notification_event
  raw-IsSlotted m params s v =
      elim (raw_delta m params)
        as (λ d.
          IsSlotted (elim d [ none ↦ s | some f ↦ append_item_fragment f.0 f.1.0 f.1.1 s ])) [
            | none ↦ v
            | some f ↦ append-IsSlotted f.0 f.1.0 f.1.1 s v
          ]

module _ {A U : Type 0} (access : ItemAccess A) where
  record-IsSlotted :
      (s : TurnOutputState A U) (item : A) → IsSlotted s → IsSlotted (record_item access s item)
  unfolding record_item ensure_item_slot
  record-IsSlotted s item v =
      elim (extract_item_id access item)
        as (λ o. IsSlotted (elim o [
          | none ↦ s
          | some i ↦
              let slotted = ensure_item_slot s i (item_type_field access item) in
              record slotted { items_by_id = Dict.put i item slotted.items_by_id }
        ])) [
          | none ↦ v
          | some i ↦
              let t = item_type_field access item in
              put-IsSlotted (ensure_item_slot s i t) i item
                (ground (arith, eq_iff i i, mem-ensure s i i t)) (ensure-IsSlotted s i t v)
        ]

  observe-IsSlotted :
      (e : TurnEvent A U) (s : TurnOutputState A U)
      → IsSlotted s
      → IsSlotted (observe_turn_event access e s)
  unfolding observe_turn_event
  observe-IsSlotted (agent_text_delta n text) s v = append-IsSlotted agent_text n text s v
  observe-IsSlotted (reasoning_text_delta n text) s v = append-IsSlotted reasoning_text n text s v
  observe-IsSlotted (command_output_delta n text) s v = append-IsSlotted command_output n text s v
  observe-IsSlotted (item_started item) s v = record-IsSlotted s item v
  observe-IsSlotted (item_completed item) s v = record-IsSlotted s item v
  observe-IsSlotted (token_usage_updated none) s v = v
  observe-IsSlotted (token_usage_updated (some usage)) s v = record {
    distinct = v.distinct;
    has_text = λ k i h. v.has_text k i (ground (arith, h));
    has_item = v.has_item;
  }
  observe-IsSlotted (raw_notification m params) s v = raw-IsSlotted m params s v
  observe-IsSlotted _ s v = v

  observe_all-IsSlotted :
      (es : List (TurnEvent A U)) (s : TurnOutputState A U)
      → IsSlotted s
      → IsSlotted (observe_all access es s)
  observe_all-IsSlotted [] s v = v
  observe_all-IsSlotted (e ∷ es) s v =
      observe_all-IsSlotted es (observe_turn_event access e s) (observe-IsSlotted e s v)

  new-IsSlotted : IsSlotted (new_state {A = A} {U = U})
  unfolding Dict.get mem
  new-IsSlotted = record {
    distinct = tt;
    has_text = λ k i h. absurd (ground (arith, h));
    has_item = λ i h. absurd (h refl);
  }

  -- Whatever events a new turn has seen, each item with a streamed fragment of any kind, empty or
  -- not, has an aggregation, in any completion of the turn.
  pub streamed_item_listed :
      (k : FragmentKind) (i : String) (es : List (TurnEvent A U)) (items : List A)
      → deltas k i es ≢ []
      → mem i (ids_of (build_item_aggregations access (observe_all access es new_state) items))
        ≡ true
  streamed_item_listed k i es items h =
      let s = observe_all access es new_state in
      let v = observe_all-IsSlotted es new_state new-IsSlotted in
      let listed = v.has_text k i (streamed_present access k i es h) in
      ground (arith, listed, (aggregations_in_order access s items).2 i)
