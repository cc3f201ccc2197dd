-- ===== src/Rpc/Envelope.antt =====
-- src/codex_agent_sdk/rpc/jsonrpc.py: typed JSON-RPC envelopes, their wire form, and the
-- normalisation of a raw JSON object into an envelope.
pub mod RoundTrip
pub mod Shape
use codex_python_sdk_unoffic.Common.{
  ℤ, String, Bool, true, false, Option, none, some, List, [], ◌∷◌, ◌++◌, ◌&&◌, ◌||◌, not, ◌==◌, Key,
  string_eq, if◌then◌else◌, int_beq, int_beq_iff, ◌≡◌, ◌↔◌, arith, eq_iff, is_some,
}
use codex_python_sdk_unoffic.Json
use codex_python_sdk_unoffic.Json.{
  Json, Fields, fields, get_field, has_field, field_or_null, append_fields,
}

-- `JsonRpcId = str | int | None`
pub data JsonRpcId : Type 0 where
  null : JsonRpcId
  int : ℤ → JsonRpcId
  text : String → JsonRpcId

abbrev pub id_beq : JsonRpcId → JsonRpcId → Bool
id_beq JsonRpcId.null JsonRpcId.null = true
id_beq (JsonRpcId.int a) (JsonRpcId.int b) = int_beq a b
id_beq (JsonRpcId.text s) (JsonRpcId.text t) = s == t
id_beq _ _ = false

pub id_beq_iff : (a b : JsonRpcId) → (id_beq a b ≡ true) ↔ (a ≡ b)
id_beq_iff (JsonRpcId.int a) (JsonRpcId.int b) = ground (arith, int_beq_iff a b)
id_beq_iff (JsonRpcId.text a) (JsonRpcId.text b) = ground (arith, eq_iff a b)
id_beq_iff _ _ = ground arith

instance abbrev pub id_eq : Key JsonRpcId
id_eq = record { agree = id_beq; agree_iff = id_beq_iff }

pub record JsonRpcErrorObject : Type 0 where
  pub code : ℤ
  pub message : String
  pub data_value : Json
  pub data_present : Bool

pub record JsonRpcRequest : Type 0 where
  pub id : JsonRpcId
  pub method : String
  pub params : Json
  pub params_present : Bool

pub record JsonRpcNotification : Type 0 where
  pub method : String
  pub params : Json
  pub params_present : Bool

pub record JsonRpcSuccessResponse : Type 0 where
  pub id : JsonRpcId
  pub result : Json

pub record JsonRpcErrorResponse : Type 0 where
  pub id : JsonRpcId
  pub error : JsonRpcErrorObject

-- the subclasses of `JsonRpcEnvelope`
pub data JsonRpcEnvelope : Type 0 where
  request : JsonRpcRequest → JsonRpcEnvelope
  notification : JsonRpcNotification → JsonRpcEnvelope
  success_response : JsonRpcSuccessResponse → JsonRpcEnvelope
  error_response : JsonRpcErrorResponse → JsonRpcEnvelope

-- an envelope object, or a decoded JSON value
pub data JsonRpcEnvelopeLike : Type 0 where
  typed : JsonRpcEnvelope → JsonRpcEnvelopeLike
  raw : Json → JsonRpcEnvelopeLike

pub data JsonRpcEnvelopeKind : Type 0 where
  request notification success_response error_response : JsonRpcEnvelopeKind

-- `ValueError`, with its message
pub data Coerced {ℓ} (A : Type ℓ) : Type ℓ where
  ok : A → Coerced A
  value_error : String → Coerced A

infixl 5 ◌>>=◌ ◌>>◌
abbrev pub ◌>>=◌ {ℓ κ} : {A : Type ℓ} {B : Type κ} → Coerced A → (A → Coerced B) → Coerced B
ok a >>= f = f a
value_error m >>= f = value_error m

abbrev pub ◌>>◌ {ℓ} : {B : Type ℓ} → Coerced (Unit {0}) → Coerced B → Coerced B
m >> k = m >>= λ _. k

abbrev raise_if : Bool → String → Coerced (Unit {0})
raise_if true m = value_error m
raise_if false m = ok tt

abbrev pub id_to_json : JsonRpcId → Json
id_to_json JsonRpcId.null = Json.null
id_to_json (JsonRpcId.int n) = Json.int n
id_to_json (JsonRpcId.text s) = Json.text s

abbrev when_present : Bool → String → Json → Fields
when_present true key v = fields ((key, v) ∷ [])
when_present false key v = fields []

abbrev pub jsonrpc_version : String
jsonrpc_version = "2.0"

unfoldable pub error_to_wire_dict : JsonRpcErrorObject → Fields
error_to_wire_dict e =
    append_fields (fields (("code", Json.int e.code) ∷ ("message", Json.text e.message) ∷ []))
      (when_present e.data_present "data" e.data_value)

abbrev version_field : Bool → Fields
version_field include_jsonrpc = when_present include_jsonrpc "jsonrpc" (Json.text jsonrpc_version)

unfoldable pub to_wire_dict : JsonRpcEnvelope → Bool → Fields
unfolding error_to_wire_dict
to_wire_dict (JsonRpcEnvelope.request r) include_jsonrpc =
    append_fields (fields (("id", id_to_json r.id) ∷ ("method", Json.text r.method) ∷ [])) (
      append_fields (when_present r.params_present "params" r.params)
        (version_field include_jsonrpc))
to_wire_dict (JsonRpcEnvelope.notification n) include_jsonrpc =
    append_fields (fields (("method", Json.text n.method) ∷ [])) (
      append_fields (when_present n.params_present "params" n.params)
        (version_field include_jsonrpc))
to_wire_dict (JsonRpcEnvelope.success_response s) include_jsonrpc =
    append_fields (fields (("id", id_to_json s.id) ∷ ("result", s.result) ∷ []))
      (version_field include_jsonrpc)
to_wire_dict (JsonRpcEnvelope.error_response s) include_jsonrpc =
    append_fields
      (fields (("id", id_to_json s.id) ∷ ("error", Json.object (error_to_wire_dict s.error)) ∷ []))
      (version_field include_jsonrpc)

-- `payload.get("jsonrpc") != JSON_RPC_VERSION`
is_version : Json → Bool
is_version (Json.text s) = s == jsonrpc_version
is_version _ = false

validate_jsonrpc_version : Fields → Coerced (Unit {0})
unfolding is_version
validate_jsonrpc_version payload = elim (get_field "jsonrpc" payload) [
  | none ↦ ok tt
  | some v ↦
      raise_if (not (is_version v)) "JSON-RPC envelope jsonrpc field must be '2.0' when present"
]

unfoldable pub coerce_request_id : Json → Coerced JsonRpcId
coerce_request_id Json.null = ok JsonRpcId.null
coerce_request_id (Json.text s) = ok (JsonRpcId.text s)
coerce_request_id (Json.int n) = ok (JsonRpcId.int n)
coerce_request_id _ = value_error "JSON-RPC id must be a string, integer, or null"

error_code : Json → Coerced ℤ
error_code (Json.int n) = ok n
error_code _ = value_error "JSON-RPC error object code must be an integer"

error_message : Json → Coerced String
error_message (Json.text s) = ok s
error_message _ = value_error "JSON-RPC error object message must be a string"

unfoldable pub coerce_error_object : Fields → Coerced JsonRpcErrorObject
unfolding error_code error_message
coerce_error_object payload = do
  code ← error_code (field_or_null "code" payload)
  message ← error_message (field_or_null "message" payload)
  ok (record {
    code = code;
    message = message;
    data_value = field_or_null "data" payload;
    data_present = has_field "data" payload;
  })

method_string : Json → Coerced String
method_string (Json.text s) = ok s
method_string _ = value_error "JSON-RPC request or notification method must be a string"

error_mapping : Json → Coerced Fields
error_mapping (Json.object fs) = ok fs
error_mapping _ = value_error "JSON-RPC response error must be an object"

-- the branch of `coerce_jsonrpc_envelope` under `if has_method`
unfoldable pub coerce_call : Fields → Coerced JsonRpcEnvelope
unfolding method_string coerce_request_id
coerce_call payload = do
  method ← method_string (field_or_null "method" payload)
  raise_if (has_field "result" payload || has_field "error" payload)
      "JSON-RPC request or notification envelopes cannot contain result or error"
  if has_field "id" payload
      then (do
        request_id ← coerce_request_id (field_or_null "id" payload)
        ok (
            JsonRpcEnvelope.request (record {
              id = request_id;
              method = method;
              params = field_or_null "params" payload;
              params_present = has_field "params" payload;
            })))
      else ok (
          JsonRpcEnvelope.notification (record {
            method = method;
            params = field_or_null "params" payload;
            params_present = has_field "params" payload;
          }))

same : Bool → Bool → Bool
same true b = b
same false b = not b

-- the rest of `coerce_jsonrpc_envelope`
unfoldable pub coerce_response : Fields → Coerced JsonRpcEnvelope
unfolding coerce_request_id coerce_error_object error_mapping same
coerce_response payload = do
  raise_if (not (has_field "id" payload)) "JSON-RPC response envelope must include id"
  raise_if (same (has_field "result" payload) (has_field "error" payload))
      "JSON-RPC response envelope must contain exactly one of result or error"
  request_id ← coerce_request_id (field_or_null "id" payload)
  if has_field "result" payload
      then ok (
          JsonRpcEnvelope.success_response
            (record { id = request_id; result = field_or_null "result" payload }))
      else (do
        error_payload ← error_mapping (field_or_null "error" payload)
        error ← coerce_error_object error_payload
        ok (JsonRpcEnvelope.error_response (record { id = request_id; error = error })))

unfoldable pub coerce_jsonrpc_envelope : JsonRpcEnvelopeLike → Coerced JsonRpcEnvelope
unfolding coerce_call coerce_response validate_jsonrpc_version
coerce_jsonrpc_envelope (typed e) = ok e
coerce_jsonrpc_envelope (raw (Json.object payload)) = do
  validate_jsonrpc_version payload
  if has_field "method" payload then coerce_call payload else coerce_response payload
coerce_jsonrpc_envelope (raw _) = value_error "JSON-RPC envelope must be a JSON object"

abbrev pub kind : JsonRpcEnvelope → JsonRpcEnvelopeKind
kind (JsonRpcEnvelope.request _) = JsonRpcEnvelopeKind.request
kind (JsonRpcEnvelope.notification _) = JsonRpcEnvelopeKind.notification
kind (JsonRpcEnvelope.success_response _) = JsonRpcEnvelopeKind.success_response
kind (JsonRpcEnvelope.error_response _) = JsonRpcEnvelopeKind.error_response

unfoldable pub classify_jsonrpc_envelope : JsonRpcEnvelopeLike → Coerced JsonRpcEnvelopeKind
unfolding coerce_jsonrpc_envelope
classify_jsonrpc_envelope envelope = do
  normalized ← coerce_jsonrpc_envelope envelope
  ok (kind normalized)

-- `MessageDecodeError`: the line, and whether `json.loads` or the coercion failed
pub data DecodeFailure : Type 0 where
  bad_json : DecodeFailure
  bad_envelope : String → DecodeFailure

pub record MessageDecodeError : Type 0 where
  pub line : String
  pub original_error : DecodeFailure
  pub stderr_tail : Option String

pub data Parsed {ℓ} (A : Type ℓ) : Type ℓ where
  parsed : A → Parsed A
  decode_error : MessageDecodeError → Parsed A

-- `json.loads` and `json.dumps` are the standard library's and enter as arguments:
-- `loads line` is `none` for a `JSONDecodeError`.
module _ (loads : String → Option Json) where
  unfoldable pub parse_jsonrpc_envelope : String → Option String → Parsed JsonRpcEnvelope
  parse_jsonrpc_envelope line stderr_tail = elim (loads line) [
    | none ↦
        decode_error (record { line = line; original_error = bad_json; stderr_tail = stderr_tail })
    | some value ↦ elim (coerce_jsonrpc_envelope (raw value)) [
      | ok e ↦ parsed e
      | value_error m ↦
          decode_error
            (record { line = line; original_error = bad_envelope m; stderr_tail = stderr_tail })
    ]
  ]

-- `dumps` is `json.dumps` on values without NaN and infinity, for which it would raise.
module _ (dumps : Json → String) where
  unfoldable pub serialize_jsonrpc_envelope : JsonRpcEnvelopeLike → Bool → Coerced String
  serialize_jsonrpc_envelope envelope include_jsonrpc = do
    normalized ← coerce_jsonrpc_envelope envelope
    ok (dumps (Json.object (to_wire_dict normalized include_jsonrpc)))
