-- ===== src/Errors/Marker.antt =====
-- src/codex_agent_sdk/errors.py: what the search for an overload marker finds.
use codex_python_sdk_unoffic.Common.{
  String, true, false, Bool, ◌&&◌, ◌||◌, ◌≡◌, ◌↔◌, inl, inr, arith, Bool-cases,
}
use codex_python_sdk_unoffic.Json.{Json, Items, Fields}
use codex_python_sdk_unoffic.Errors.{
  is_info_key, is_marker_text, contains_overload_marker, any_field_marked, any_item_marked,
}

-- A text somewhere in the value that is "server_overloaded", in any case.
mutual
  pub data Marked : Json → Type 0 where
    here : (s : String) → is_marker_text s ≡ true → Marked (Json.text s)
    in_object : (fs : Fields) → MarkedField fs → Marked (Json.object fs)
    in_array : (xs : Items) → MarkedItem xs → Marked (Json.array xs)

  pub data MarkedField : Fields → Type 0 where
    this_field :
        (k : String) (v : Json) (fs : Fields) → Marked v → MarkedField (Fields.field k v fs)
    later_field :
        (k : String) (v : Json) (fs : Fields) → MarkedField fs → MarkedField (Fields.field k v fs)

  pub data MarkedItem : Items → Type 0 where
    this_item : (v : Json) (xs : Items) → Marked v → MarkedItem (Items.cons v xs)
    later_item : (v : Json) (xs : Items) → MarkedItem xs → MarkedItem (Items.cons v xs)

any_here : (info m rest : Bool) → m ≡ true → ((info && m) || (m || rest)) ≡ true
any_here info m rest h = ground arith

any_later : (info m rest : Bool) → rest ≡ true → ((info && m) || (m || rest)) ≡ true
any_later info m rest h = ground arith

not_here : (info m rest : Bool) → ((info && m) || (m || rest)) ≡ true → m ≡ false → rest ≡ true
not_here info m rest h e = ground arith

mutual
  unfolding contains_overload_marker

  marker_sound : (v : Json) → contains_overload_marker v ≡ true → Marked v
  marker_sound (Json.text s) h = here s h
  marker_sound (Json.object fs) h = in_object fs (field_sound fs h)
  marker_sound (Json.array xs) h = in_array xs (item_sound xs h)
  marker_sound Json.null h = cc
  marker_sound (Json.bool b) h = cc
  marker_sound (Json.int n) h = cc
  marker_sound (Json.float n) h = cc

  field_sound : (fs : Fields) → any_field_marked fs ≡ true → MarkedField fs
  field_sound Fields.end h = cc
  field_sound (Fields.field k v fs) h = elim (Bool-cases (contains_overload_marker v)) [
    | inl m ↦ this_field k v fs (marker_sound v m)
    | inr m ↦ later_field k v fs (field_sound fs (not_here (is_info_key k) _ _ h m))
  ]

  item_sound : (xs : Items) → any_item_marked xs ≡ true → MarkedItem xs
  item_sound Items.nil h = cc
  item_sound (Items.cons v xs) h = elim (Bool-cases (contains_overload_marker v)) [
    | inl m ↦ this_item v xs (marker_sound v m)
    | inr m ↦ later_item v xs (item_sound xs (ground arith))
  ]

mutual
  unfolding contains_overload_marker

  marker_complete : {v : Json} → Marked v → contains_overload_marker v ≡ true
  marker_complete (here s h) = h
  marker_complete (in_object fs m) = field_complete m
  marker_complete (in_array xs m) = item_complete m

  field_complete : {fs : Fields} → MarkedField fs → any_field_marked fs ≡ true
  field_complete (this_field k v fs m) = any_here (is_info_key k) _ _ (marker_complete m)
  field_complete (later_field k v fs m) = any_later (is_info_key k) _ _ (field_complete m)

  item_complete : {xs : Items} → MarkedItem xs → any_item_marked xs ≡ true
  item_complete (this_item v xs m) = ground (arith, marker_complete m)
  item_complete (later_item v xs m) = ground (arith, item_complete m)

pub contains_overload_marker_iff : (v : Json) → (contains_overload_marker v ≡ true) ↔ Marked v
contains_overload_marker_iff v = (marker_sound v, marker_complete)
