-- ===== src/Rpc/Filter/Matching.antt =====
-- src/codex_agent_sdk/rpc/router.py: which messages the two kinds of filter select.
use codex_python_sdk_unoffic.Common.{
  String, Bool, true, false, Option, none, some, ◌≡◌, ◌≢◌, refl, arith, string_eq, eq_iff, ◌↔◌,
  some-injective, ap, inl, inr, Option-cases, ◌&&◌, if◌then◌else◌,
}
use codex_python_sdk_unoffic.Json.{Json, Fields, as_object, as_text, field_or_null}
use codex_python_sdk_unoffic.Rpc.Envelope.{JsonRpcNotification, JsonRpcRequest}
use codex_python_sdk_unoffic.Rpc.Filter.{
  SubscriptionFilter, extract_notification_thread_id, extract_notification_turn_id,
  extract_server_request_thread_id, extract_server_request_turn_id, excludes, is_unset, matches_by,
  notification_matches, server_request_matches, nested_id, direct_or_nested,
}

-- a filter's wish for a value is granted: there is none, or it is the value that is there
abbrev pub Grants : (String → Type 0) → Option String → Type 0
Grants Found none = Unit
Grants Found (some w) = Found w

-- where the id of a thread or a turn can stand: in a field of its own, or, if that holds no text,
-- as the id of a nested object
pub data Names (direct outer : String) (fs : Fields) (i : String) : Type 0 where
  directly : field_or_null direct fs ≡ Json.text i → Names direct outer fs i
  nested :
      (inner : Fields)
      → ((t : String) → field_or_null direct fs ≢ Json.text t)
      → field_or_null outer fs ≡ Json.object inner
      → field_or_null "id" inner ≡ Json.text i
      → Names direct outer fs i

-- The ids are there as wished: none is wished, or the parameters are an object that has them.
abbrev pub HasIds :
    (Fields → String → Type 0)
    → (Fields → String → Type 0)
    → SubscriptionFilter
    → Option Fields
    → Type 0
HasIds Thread Turn filter none = (filter.thread_id ≡ none) × (filter.turn_id ≡ none)
HasIds Thread Turn filter (some fs) =
    Grants (Thread fs) filter.thread_id × Grants (Turn fs) filter.turn_id

abbrev pub params_object : Bool → Json → Option Fields
params_object true params = as_object params
params_object false params = none

as_text_iff : (v : Json) (s : String) → (as_text v ≡ some s) ↔ (v ≡ Json.text s)
as_text_iff (Json.text t) s = (λ h. ap Json.text (some-injective t s h), λ h. ap as_text h)
as_text_iff Json.null s = (λ h. ground (arith, h), λ h. ap as_text h)
as_text_iff (Json.bool b) s = (λ h. ground (arith, h), λ h. ap as_text h)
as_text_iff (Json.int n) s = (λ h. ground (arith, h), λ h. ap as_text h)
as_text_iff (Json.float n) s = (λ h. ground (arith, h), λ h. ap as_text h)
as_text_iff (Json.array xs) s = (λ h. ground (arith, h), λ h. ap as_text h)
as_text_iff (Json.object fs) s = (λ h. ground (arith, h), λ h. ap as_text h)

as_object_of : (v : Json) (fs : Fields) → as_object v ≡ some fs → v ≡ Json.object fs
as_object_of (Json.object gs) fs h = ap Json.object (some-injective gs fs h)
as_object_of (Json.text t) fs h = ground (arith, h)
as_object_of Json.null fs h = ground (arith, h)
as_object_of (Json.bool b) fs h = ground (arith, h)
as_object_of (Json.int n) fs h = ground (arith, h)
as_object_of (Json.float n) fs h = ground (arith, h)
as_object_of (Json.array xs) fs h = ground (arith, h)

nested_id_of :
    (outer : String) (fs : Fields) (i : String)
    → nested_id outer fs ≡ some i
    → (inner : Fields) × (field_or_null outer fs ≡ Json.object inner)
      × (field_or_null "id" inner ≡ Json.text i)
unfolding nested_id
nested_id_of outer fs i h = elim (Option-cases (as_object (field_or_null outer fs))) [
  | inl e ↦ absurd (ground (arith, h, e))
  | inr (inner, e) ↦ (
    inner,
    as_object_of (field_or_null outer fs) inner e,
    (as_text_iff (field_or_null "id" inner) i).0 (ground (arith, h, e)),
  )
]

nested_id-at :
    (outer : String) (fs inner : Fields) (i : String)
    → field_or_null outer fs ≡ Json.object inner
    → field_or_null "id" inner ≡ Json.text i
    → nested_id outer fs ≡ some i
unfolding nested_id
nested_id-at outer fs inner i o h = ground (arith, o, h)

no_text : (v : Json) → ((t : String) → v ≢ Json.text t) → as_text v ≡ none
no_text v h = elim (Option-cases (as_text v)) [
  | inl e ↦ e
  | inr (t, e) ↦ absurd (h t ((as_text_iff v t).0 e))
]

direct_or_nested_iff :
    (direct outer : String) (fs : Fields) (i : String)
    → (direct_or_nested direct outer fs ≡ some i) ↔ Names direct outer fs i
unfolding direct_or_nested
direct_or_nested_iff direct outer fs i = (
  λ h. elim (Option-cases (as_text (field_or_null direct fs))) [
    | inl e ↦
        let found = nested_id_of outer fs i (ground (arith, h, e)) in
        nested found.0
          (λ t text. absurd (ground (arith, e, (as_text_iff (field_or_null direct fs) t).1 text)))
          found.1 found.2
    | inr (s, e) ↦ directly ((as_text_iff (field_or_null direct fs) i).0 (ground (arith, h, e)))
  ],
  λ n. elim n [
    | directly h ↦ ground (arith, h)
    | nested inner none_there o h ↦
        ground
          (arith, no_text (field_or_null direct fs) none_there, nested_id-at outer fs inner i o h)
  ],
)

-- what a way to find an id finds
abbrev Finds : (Fields → Option String) → (Fields → String → Type 0) → Type 0
Finds find Found = (fs : Fields) (i : String) → (find fs ≡ some i) ↔ Found fs i

excludes_iff :
    (w f : Option String) (Found : String → Type 0)
    → ((i : String) → (f ≡ some i) ↔ Found i)
    → (excludes w f ≡ false) ↔ Grants Found w
unfolding excludes
excludes_iff none f Found found = (λ h. tt, λ h. refl)
excludes_iff (some w) none Found found =
    (λ h. absurd (ground (arith, h)), λ h. absurd (ground (arith, (found w).1 h)))
excludes_iff (some w) (some f) Found found = (
  (λ h. (found w).0 (ap some (ground (arith, h, eq_iff f w)))),
  λ h. ground (arith, some-injective f w ((found w).1 h), eq_iff f w),
)

-- the part of the test after the method, on what the parameters are
abbrev ids_match :
    (Fields → Option String) → (Fields → Option String) → SubscriptionFilter → Option Fields → Bool
ids_match thread_of turn_of filter o =
    if is_unset filter.thread_id && is_unset filter.turn_id then true else elim o [
      | none ↦ false
      | some fs ↦
          if excludes filter.thread_id (thread_of fs)
          then false
          else if excludes filter.turn_id (turn_of fs)
          then false
          else true
    ]

-- what is left of the test when each side is known
ids_iff :
    {P Q : Type 0} (x y : Bool) (filter : SubscriptionFilter)
    → ((x ≡ false) ↔ P)
    → ((y ≡ false) ↔ Q)
    → (is_unset filter.thread_id && is_unset filter.turn_id ≡ true → (x ≡ false) × (y ≡ false))
    → ((if is_unset filter.thread_id && is_unset filter.turn_id
          then true
          else if x
          then false
          else if y
          then false
          else true)
        ≡ true)
      ↔ (P × Q)
ids_iff x y filter f g u = (
  λ h. (f.0 (ground (arith, h, u)), g.0 (ground (arith, h, u))),
  λ k. ground (arith, f.1 k.0, g.1 k.1),
)

ids_match_iff :
    (thread_of turn_of : Fields → Option String) (Thread Turn : Fields → String → Type 0)
    (filter : SubscriptionFilter) (o : Option Fields)
    → Finds thread_of Thread
    → Finds turn_of Turn
    → (ids_match thread_of turn_of filter o ≡ true) ↔ HasIds Thread Turn filter o
unfolding is_unset excludes
ids_match_iff thread_of turn_of Thread Turn filter none f g =
    (λ h. ground (arith, h), λ h. ground (arith, h))
ids_match_iff thread_of turn_of Thread Turn filter (some fs) f g =
    let on_thread = excludes_iff filter.thread_id (thread_of fs) (Thread fs) (f fs) in
    let on_turn = excludes_iff filter.turn_id (turn_of fs) (Turn fs) (g fs) in
    ids_iff (excludes filter.thread_id (thread_of fs)) (excludes filter.turn_id (turn_of fs)) filter
      on_thread on_turn (λ u. (ground (arith, u), ground (arith, u)))

no_true : true ≢ false
no_true h = ground (arith, h)

guarded_iff :
    {P Q : Type 0} (x y : Bool)
    → ((x ≡ false) ↔ P)
    → ((y ≡ true) ↔ Q)
    → ((if x then false else y) ≡ true) ↔ (P × Q)
guarded_iff true y f g = (λ h. absurd (ground (arith, h)), λ k. absurd (no_true (f.1 k.0)))
guarded_iff false y f g = (λ h. (f.0 refl, g.0 h), λ k. g.1 k.1)

method_iff :
    (w : Option String) (m : String) → (excludes w (some m) ≡ false) ↔ Grants (λ x. m ≡ x) w
method_iff w m = excludes_iff w (some m) (λ x. m ≡ x) (λ i. (some-injective m i, λ h. ap some h))

matches_by_iff :
    (thread_of turn_of : Fields → Option String) (Thread Turn : Fields → String → Type 0)
    (filter : SubscriptionFilter) (m : String) (params : Json) (b : Bool)
    → Finds thread_of Thread
    → Finds turn_of Turn
    → (matches_by thread_of turn_of filter m params b ≡ true)
      ↔ (Grants (λ w. m ≡ w) filter.method × HasIds Thread Turn filter (params_object b params))
unfolding matches_by is_unset
matches_by_iff thread_of turn_of Thread Turn filter m params true f g =
    guarded_iff _ _ (method_iff filter.method m)
      (ids_match_iff thread_of turn_of Thread Turn filter (as_object params) f g)
matches_by_iff thread_of turn_of Thread Turn filter m params false f g =
    guarded_iff _ _ (method_iff filter.method m)
      (ids_match_iff thread_of turn_of Thread Turn filter none f g)

-- A filter selects a notification exactly if the method is the one it wants, if any, and the thread
-- and turn ids are those it wants, if any. The thread's id is the text in `threadId`, or, if that
-- holds no text, the text `id` of an object `thread`; the turn's is found in the same way in
-- `turnId` and `turn`. If an id is wanted, parameters that are absent or no object are not selected.
pub notification_matches_iff :
    (filter : SubscriptionFilter) (n : JsonRpcNotification)
    → (notification_matches filter n ≡ true) ↔ (
        Grants (λ w. n.method ≡ w) filter.method
        × HasIds
            (Names "threadId" "thread")
            (Names "turnId" "turn")
            filter
            (params_object n.params_present n.params))
unfolding notification_matches extract_notification_thread_id extract_notification_turn_id
notification_matches_iff filter n =
    matches_by_iff extract_notification_thread_id extract_notification_turn_id
      (Names "threadId" "thread") (Names "turnId" "turn") filter n.method n.params n.params_present
      (direct_or_nested_iff "threadId" "thread") (direct_or_nested_iff "turnId" "turn")

-- A filter selects a request of the server exactly if the method is the one it wants, if any, and
-- the texts in `threadId` and `turnId` are those it wants, if any. If an id is wanted, parameters
-- that are absent or no object are not selected.
pub server_request_matches_iff :
    (filter : SubscriptionFilter) (q : JsonRpcRequest)
    → (server_request_matches filter q ≡ true) ↔ (
        Grants (λ w. q.method ≡ w) filter.method
        × HasIds
            (λ fs i. field_or_null "threadId" fs ≡ Json.text i)
            (λ fs i. field_or_null "turnId" fs ≡ Json.text i)
            filter
            (params_object q.params_present q.params))
unfolding server_request_matches extract_server_request_thread_id extract_server_request_turn_id
server_request_matches_iff filter q =
    matches_by_iff extract_server_request_thread_id extract_server_request_turn_id
      (λ fs i. field_or_null "threadId" fs ≡ Json.text i)
      (λ fs i. field_or_null "turnId" fs ≡ Json.text i) filter q.method q.params q.params_present
      (λ fs. as_text_iff (field_or_null "threadId" fs))
      (λ fs. as_text_iff (field_or_null "turnId" fs))
