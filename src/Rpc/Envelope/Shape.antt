-- ===== src/Rpc/Envelope/Shape.antt =====
-- src/codex_agent_sdk/rpc/jsonrpc.py: exactly which JSON objects are read as which envelope.
use codex_python_sdk_unoffic.Common.{
  String, Bool, true, false, none, some, ◌≡◌, ◌⊎◌, inl, inr, Option-cases, Bool-cases, ◌↔◌, arith,
  eq_iff,
}
use codex_python_sdk_unoffic.Json.{Json, Fields, get_field, has_field}
use codex_python_sdk_unoffic.Rpc.Envelope.{
  JsonRpcId, id_to_json, JsonRpcErrorObject, JsonRpcEnvelope, raw, ok, jsonrpc_version, is_version,
  validate_jsonrpc_version, coerce_request_id, coerce_error_object, coerce_call, coerce_response,
  coerce_jsonrpc_envelope,
}

-- an optional member: its value where it is present, `None` where it is not
abbrev pub Carries : Fields → String → Json → Bool → Type 0
Carries fs key v true = get_field key fs ≡ some v
Carries fs key v false = (get_field key fs ≡ none) × (v ≡ Json.null)

abbrev pub HasVersion : Fields → Type 0
HasVersion fs =
    (get_field "jsonrpc" fs ≡ none) ⊎ (get_field "jsonrpc" fs ≡ some (Json.text jsonrpc_version))

abbrev pub ReadsError : Fields → JsonRpcErrorObject → Type 0
ReadsError fs e =
    (get_field "code" fs ≡ some (Json.int e.code))
    × (get_field "message" fs ≡ some (Json.text e.message))
    × Carries fs "data" e.data_value e.data_present

-- The JSON object `fs` stands for the envelope `e`.
abbrev pub Reads : Fields → JsonRpcEnvelope → Type 0
Reads fs (JsonRpcEnvelope.request r) =
    HasVersion fs
    × (get_field "method" fs ≡ some (Json.text r.method))
    × (get_field "result" fs ≡ none)
    × (get_field "error" fs ≡ none)
    × (get_field "id" fs ≡ some (id_to_json r.id))
    × Carries fs "params" r.params r.params_present
Reads fs (JsonRpcEnvelope.notification n) =
    HasVersion fs
    × (get_field "method" fs ≡ some (Json.text n.method))
    × (get_field "result" fs ≡ none)
    × (get_field "error" fs ≡ none)
    × (get_field "id" fs ≡ none)
    × Carries fs "params" n.params n.params_present
Reads fs (JsonRpcEnvelope.success_response s) =
    HasVersion fs
    × (get_field "method" fs ≡ none)
    × (get_field "id" fs ≡ some (id_to_json s.id))
    × (get_field "result" fs ≡ some s.result)
    × (get_field "error" fs ≡ none)
Reads fs (JsonRpcEnvelope.error_response s) =
    HasVersion fs
    × (get_field "method" fs ≡ none)
    × (get_field "id" fs ≡ some (id_to_json s.id))
    × (get_field "result" fs ≡ none)
    × ((gs : Fields) × (get_field "error" fs ≡ some (Json.object gs)) × ReadsError gs s.error)

coerce_request_id-id_to_json : (i : JsonRpcId) → coerce_request_id (id_to_json i) ≡ ok i
unfolding coerce_request_id
coerce_request_id-id_to_json i = ground arith

eq-id_to_json : (v : Json) (i : JsonRpcId) → coerce_request_id v ≡ ok i → v ≡ id_to_json i
unfolding coerce_request_id
eq-id_to_json v i h = ground arith

is_version_iff : (v : Json) → (is_version v ≡ true) ↔ (v ≡ Json.text jsonrpc_version)
unfolding is_version
is_version_iff (Json.text s) = ground (arith, eq_iff s jsonrpc_version)
is_version_iff _ = ground arith

validate_sound : (fs : Fields) → validate_jsonrpc_version fs ≡ ok tt → HasVersion fs
unfolding validate_jsonrpc_version
validate_sound fs h = elim (Option-cases (get_field "jsonrpc" fs)) [
  | inl e ↦ inl e
  | inr (v, e) ↦ inr (ground (arith, is_version_iff v))
]

validate_complete : (fs : Fields) → HasVersion fs → validate_jsonrpc_version fs ≡ ok tt
unfolding validate_jsonrpc_version
validate_complete fs (inl e) = ground arith
validate_complete fs (inr e) = ground (arith, is_version_iff (Json.text jsonrpc_version))

coerce_error_sound :
    (fs : Fields) (e : JsonRpcErrorObject) → coerce_error_object fs ≡ ok e → ReadsError fs e
unfolding coerce_error_object
coerce_error_sound fs e h = ground arith

coerce_error_complete :
    (fs : Fields) (e : JsonRpcErrorObject) → ReadsError fs e → coerce_error_object fs ≡ ok e
unfolding coerce_error_object
coerce_error_complete fs e h = ground arith

-- What the branch for calls returns, in terms of the members.
coerce_call_sound :
    (fs : Fields) (e : JsonRpcEnvelope)
    → HasVersion fs
    → has_field "method" fs ≡ true
    → coerce_call fs ≡ ok e
    → Reads fs e
unfolding coerce_call coerce_request_id
coerce_call_sound fs e v m h = ground arith

coerce_response_sound :
    (fs : Fields) (e : JsonRpcEnvelope)
    → HasVersion fs
    → has_field "method" fs ≡ false
    → coerce_response fs ≡ ok e
    → Reads fs e
unfolding coerce_response coerce_request_id
coerce_response_sound fs e v m h = ground arith

coerce_sound :
    (fs : Fields) (e : JsonRpcEnvelope)
    → coerce_jsonrpc_envelope (raw (Json.object fs)) ≡ ok e
    → Reads fs e
unfolding coerce_jsonrpc_envelope
coerce_sound fs e h =
    let v : validate_jsonrpc_version fs ≡ ok tt = ground arith in
    elim (Bool-cases (has_field "method" fs)) [
      | inl m ↦ coerce_call_sound fs e (validate_sound fs v) m (ground arith)
      | inr m ↦ coerce_response_sound fs e (validate_sound fs v) m (ground arith)
    ]

coerce_complete :
    (fs : Fields) (e : JsonRpcEnvelope)
    → Reads fs e
    → coerce_jsonrpc_envelope (raw (Json.object fs)) ≡ ok e
unfolding coerce_jsonrpc_envelope coerce_call coerce_response
coerce_complete fs (JsonRpcEnvelope.request r) h =
    ground (arith, validate_complete fs h.0, coerce_request_id-id_to_json r.id)
coerce_complete fs (JsonRpcEnvelope.notification n) h = ground (arith, validate_complete fs h.0)
coerce_complete fs (JsonRpcEnvelope.success_response s) h =
    ground (arith, validate_complete fs h.0, coerce_request_id-id_to_json s.id)
coerce_complete fs (JsonRpcEnvelope.error_response s) h = ground (
  arith,
  validate_complete fs h.0,
  coerce_request_id-id_to_json s.id,
  coerce_error_complete h.4.0 s.error,
)

-- An object is read as an envelope exactly when its members say so: the version member is
-- absent or "2.0", and the members of the envelope's family are there with their types while
-- those of the other families are not.
pub coerce_iff :
    (fs : Fields) (e : JsonRpcEnvelope)
    → (coerce_jsonrpc_envelope (raw (Json.object fs)) ≡ ok e) ↔ Reads fs e
coerce_iff fs e = (coerce_sound fs e, coerce_complete fs e)
