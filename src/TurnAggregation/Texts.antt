-- ===== src/TurnAggregation/Texts.antt =====
-- src/codex_agent_sdk/_turn_aggregation.py: the texts that streamed fragments add up to.
use codex_python_sdk_unoffic.Common.{
  String, Bool, true, false, Option, none, some, List, [], ◌∷◌, ◌++◌, ◌≡◌, ◌≢◌, refl, ◌∙◌, ap,
  arith, string_eq, ◌&&◌, ◌==◌, eq_iff, if◌then◌else◌, append_assoc, append-nil,
}
use codex_python_sdk_unoffic.Common.Dict
use codex_python_sdk_unoffic.Common.Dict.{Dict, get-put}
use codex_python_sdk_unoffic.Json.{Json, Fields}
use codex_python_sdk_unoffic.TurnAggregation.Build.{
  concat, assembled, extract_fallback, assemble_item_text,
}
use codex_python_sdk_unoffic.TurnAggregation.State.{
  ItemAccess, new_state, FragmentKind, agent_text, command_output, file_change_output, plan_text,
  reasoning_text, TurnOutputState, TurnEvent, agent_text_delta, reasoning_text_delta,
  command_output_delta, item_started, item_completed, token_usage_updated, raw_notification,
  fragments, with_fragments, or_empty, raw_delta, ensure_item_slot, append_item_fragment,
  record_item, observe_raw_notification_event, observe_turn_event,
}

abbrev pub same_kind : FragmentKind → FragmentKind → Bool
same_kind agent_text agent_text = true
same_kind command_output command_output = true
same_kind file_change_output file_change_output = true
same_kind plan_text plan_text = true
same_kind reasoning_text reasoning_text = true
same_kind _ _ = false

-- what one event says about an item's text of a kind
abbrev pub delta_of : {A U : Type 0} → TurnEvent A U → Option (FragmentKind × (String × String))
delta_of (agent_text_delta i text) = some (agent_text, (i, text))
delta_of (command_output_delta i text) = some (command_output, (i, text))
delta_of (reasoning_text_delta i text) = some (reasoning_text, (i, text))
delta_of (raw_notification m params) = raw_delta m params
delta_of _ = none

abbrev pub keep : FragmentKind → String → Option (FragmentKind × (String × String)) → List String
keep k i none = []
keep k i (some d) = if same_kind d.0 k && d.1.0 == i then d.1.1 ∷ [] else []

-- the fragments that the events hold for an item's text of a kind, in order
abbrev pub deltas : {A U : Type 0} → FragmentKind → String → List (TurnEvent A U) → List String
deltas k i [] = []
deltas k i (e ∷ es) = keep k i (delta_of e) ++ deltas k i es

abbrev pub extended : Option (List String) → List String → Option (List String)
extended o [] = o
extended o (x ∷ xs) = some (or_empty o ++ x ∷ xs)

extended-extended :
    (o : Option (List String)) (xs ys : List String)
    → extended (extended o xs) ys ≡ extended o (xs ++ ys)
extended-extended o [] ys = refl
extended-extended o (x ∷ xs) [] = rw (append-nil xs) refl
extended-extended o (x ∷ xs) (y ∷ ys) = ap some (append_assoc (or_empty o) (x ∷ xs) (y ∷ ys))

-- Fragments that are not all empty are the text; without any, the fallback is.
assemble_streamed :
    (xs : List String) (fallback : Option String)
    → (concat xs ≢ "" → assemble_item_text (extended none xs) fallback ≡ some (concat xs))
      × (xs ≡ [] → assemble_item_text (extended none xs) fallback ≡ fallback)
unfolding assemble_item_text concat
assemble_streamed [] fallback = (λ h. absurd (h refl), λ h. refl)
assemble_streamed (x ∷ xs) none = (λ h. refl, λ h. absurd (ground arith))
assemble_streamed (x ∷ xs) (some fallback) =
    ((λ h. ground (arith, eq_iff (concat (x ∷ xs)) "")), λ h. absurd (ground arith))

extended_present : (xs : List String) → xs ≢ [] → extended none xs ≢ none
extended_present [] h = absurd (h refl)
extended_present (x ∷ xs) h = λ e. ground (arith, e)

new-extended :
    (A U : Type 0) (k : FragmentKind) (i : String) (xs : List String)
    → extended (Dict.get i (fragments k (new_state {A = A} {U = U}))) xs ≡ extended none xs
unfolding Dict.get
new-extended A U k i xs = ground arith

module _ {A U : Type 0} where
  fragments-with_fragments :
      (j k : FragmentKind) (d : Dict String (List String)) (s : TurnOutputState A U)
      → fragments k (with_fragments j d s) ≡ (if same_kind j k then d else fragments k s)
  fragments-with_fragments j k d s = ground arith

  fragments-ensure :
      (k : FragmentKind) (s : TurnOutputState A U) (i : String) (t : Option String)
      → fragments k (ensure_item_slot s i t) ≡ fragments k s
  unfolding ensure_item_slot
  fragments-ensure k s i t = ground (arith)

  pub fragments-append :
      (j k : FragmentKind) (i n : String) (text : String) (s : TurnOutputState A U)
      → Dict.get i (fragments k (append_item_fragment j n text s))
        ≡ extended (Dict.get i (fragments k s)) (keep k i (some (j, (n, text))))
  unfolding append_item_fragment
  fragments-append j k i n text s = ground (
    arith,
    eq_iff n i,
    fragments-with_fragments j k,
    get-put n i (or_empty (Dict.get n (fragments j s)) ++ text ∷ []) (fragments j s),
  )

module _ {A U : Type 0} (access : ItemAccess A) where
  pub fragments-record :
      (k : FragmentKind) (s : TurnOutputState A U) (item : A)
      → fragments k (record_item access s item) ≡ fragments k s
  unfolding record_item
  fragments-record k s item = ground (arith, fragments-ensure k s)

  fragments-raw :
      (k : FragmentKind) (i m : String) (params : Json) (s : TurnOutputState A U)
      → Dict.get i (fragments k (observe_raw_notification_event m params s))
        ≡ extended (Dict.get i (fragments k s)) (keep k i (raw_delta m params))
  unfolding observe_raw_notification_event
  fragments-raw k i m params s =
      elim (raw_delta m params)
        as (λ d.
          Dict.get i
            (fragments k (elim d [ none ↦ s | some f ↦ append_item_fragment f.0 f.1.0 f.1.1 s ]))
          ≡ extended (Dict.get i (fragments k s)) (keep k i d)) [
            | none ↦ refl
            | some f ↦ fragments-append f.0 k i f.1.0 f.1.1 s
          ]

  fragments-observe :
      (k : FragmentKind) (i : String) (e : TurnEvent A U) (s : TurnOutputState A U)
      → Dict.get i (fragments k (observe_turn_event access e s))
        ≡ extended (Dict.get i (fragments k s)) (keep k i (delta_of e))
  unfolding observe_turn_event observe_raw_notification_event
  fragments-observe k i (agent_text_delta n text) s = fragments-append agent_text k i n text s
  fragments-observe k i (reasoning_text_delta n text) s =
      fragments-append reasoning_text k i n text s
  fragments-observe k i (command_output_delta n text) s =
      fragments-append command_output k i n text s
  fragments-observe k i (item_started item) s = ap (Dict.get i) (fragments-record k s item)
  fragments-observe k i (item_completed item) s = ap (Dict.get i) (fragments-record k s item)
  fragments-observe k i (token_usage_updated none) s = refl
  fragments-observe k i (token_usage_updated (some usage)) s = ground arith
  fragments-observe k i (raw_notification m params) s = fragments-raw k i m params s
  fragments-observe k i _ s = refl

  abbrev pub observe_all : List (TurnEvent A U) → TurnOutputState A U → TurnOutputState A U
  observe_all [] s = s
  observe_all (e ∷ es) s = observe_all es (observe_turn_event access e s)

  -- Whatever events come, in whatever order, an item's fragments of a kind are those that it had,
  -- followed by those that the events hold for it, in order; they are absent if there are none.
  pub fragments-observe_all :
      (k : FragmentKind) (i : String) (es : List (TurnEvent A U)) (s : TurnOutputState A U)
      → Dict.get i (fragments k (observe_all es s))
        ≡ extended (Dict.get i (fragments k s)) (deltas k i es)
  fragments-observe_all k i [] s = refl
  fragments-observe_all k i (e ∷ es) s =
      fragments-observe_all k i es (observe_turn_event access e s)
      ∙ rw (fragments-observe k i e s)
          (extended-extended (Dict.get i (fragments k s)) (keep k i (delta_of e)) (deltas k i es))

  pub streamed_present :
      (k : FragmentKind) (i : String) (es : List (TurnEvent A U))
      → deltas k i es ≢ []
      → Dict.get i (fragments k (observe_all es new_state)) ≢ none
  streamed_present k i es h =
      rw (fragments-observe_all k i es new_state ∙ new-extended A U k i (deltas k i es))
        (extended_present (deltas k i es) h)

  -- The text of a new turn's item is the concatenation of the fragments streamed for it, whatever
  -- else was streamed in between and whatever the item itself says, unless they are all empty. An
  -- item for which nothing was streamed has the text that the item itself gives, if it does.
  pub streamed_text :
      (k : FragmentKind) (i : String) (es : List (TurnEvent A U)) (data_ : Option Fields)
      (t : Option String)
      → (concat (deltas k i es) ≢ ""
          → assembled (observe_all es new_state) k i data_ t ≡ some (concat (deltas k i es)))
        × (deltas k i es ≡ []
            → assembled (observe_all es new_state) k i data_ t ≡ extract_fallback k data_ t)
  unfolding assembled
  streamed_text k i es data_ t =
      rw (fragments-observe_all k i es new_state ∙ new-extended A U k i (deltas k i es))
        (assemble_streamed (deltas k i es) (extract_fallback k data_ t))
