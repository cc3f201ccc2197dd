-- ===== src/Rpc/Envelope/RoundTrip.antt =====
-- src/codex_agent_sdk/rpc/jsonrpc.py: what is serialised is read back.
use codex_python_sdk_unoffic.Common.{String, Bool, true, false, Option, some, ◌≡◌, refl, arith}
use codex_python_sdk_unoffic.Json.{Json, Fields, get_field}
use codex_python_sdk_unoffic.Rpc.Envelope.{
  JsonRpcEnvelope, typed, raw, ok, to_wire_dict, error_to_wire_dict, coerce_jsonrpc_envelope,
  parsed, parse_jsonrpc_envelope, serialize_jsonrpc_envelope,
}
use codex_python_sdk_unoffic.Rpc.Envelope.Shape.{Carries, Reads, coerce_iff}

-- A value that is marked absent is `None`.
abbrev pub IsAbsentOnlyAsNone : Bool → Json → Type 0
IsAbsentOnlyAsNone true v = Unit
IsAbsentOnlyAsNone false v = v ≡ Json.null

-- The envelopes that the module's own parser builds.
abbrev pub IsCanonical : JsonRpcEnvelope → Type 0
IsCanonical (JsonRpcEnvelope.request r) = IsAbsentOnlyAsNone r.params_present r.params
IsCanonical (JsonRpcEnvelope.notification n) = IsAbsentOnlyAsNone n.params_present n.params
IsCanonical (JsonRpcEnvelope.success_response s) = Unit
IsCanonical (JsonRpcEnvelope.error_response s) =
    IsAbsentOnlyAsNone s.error.data_present s.error.data_value

Carries-absent :
    (fs : Fields) (k : String) (v : Json) (b : Bool) → Carries fs k v b → IsAbsentOnlyAsNone b v
Carries-absent fs k v true h = tt
Carries-absent fs k v false h = h.1

Reads-IsCanonical : (fs : Fields) (e : JsonRpcEnvelope) → Reads fs e → IsCanonical e
Reads-IsCanonical fs (JsonRpcEnvelope.request r) h =
    Carries-absent fs "params" r.params r.params_present h.5
Reads-IsCanonical fs (JsonRpcEnvelope.notification n) h =
    Carries-absent fs "params" n.params n.params_present h.5
Reads-IsCanonical fs (JsonRpcEnvelope.success_response s) h = tt
Reads-IsCanonical fs (JsonRpcEnvelope.error_response s) h =
    Carries-absent h.4.0 "data" s.error.data_value s.error.data_present h.4.2.2

-- Whatever JSON value is accepted, the envelope built from it is canonical.
pub coerce-IsCanonical :
    (v : Json) (e : JsonRpcEnvelope) → coerce_jsonrpc_envelope (raw v) ≡ ok e → IsCanonical e
unfolding coerce_jsonrpc_envelope
coerce-IsCanonical (Json.object fs) e h = Reads-IsCanonical fs e ((coerce_iff fs e).0 h)
coerce-IsCanonical _ e h = cc

to_wire_dict-Reads : (e : JsonRpcEnvelope) (b : Bool) → IsCanonical e → Reads (to_wire_dict e b) e
unfolding to_wire_dict get_field
to_wire_dict-Reads (JsonRpcEnvelope.request r) b h = ground arith
to_wire_dict-Reads (JsonRpcEnvelope.notification r) b h = ground arith
to_wire_dict-Reads (JsonRpcEnvelope.success_response r) b h = ground arith
to_wire_dict-Reads (JsonRpcEnvelope.error_response r) b h = (
  ground arith,
  ground arith,
  refl,
  ground arith,
  (error_to_wire_dict r.error, refl, ground arith),
)

-- The wire form of a canonical envelope, with or without the version member, is read back as
-- the same envelope.
pub coerce-to_wire_dict :
    (e : JsonRpcEnvelope) (b : Bool)
    → IsCanonical e
    → coerce_jsonrpc_envelope (raw (Json.object (to_wire_dict e b))) ≡ ok e
coerce-to_wire_dict e b h = (coerce_iff (to_wire_dict e b) e).1 (to_wire_dict-Reads e b h)

parse_lem :
    (loads : String → Option Json) (line : String) (v : Json) (e : JsonRpcEnvelope)
    (tail : Option String)
    → loads line ≡ some v
    → coerce_jsonrpc_envelope (raw v) ≡ ok e
    → parse_jsonrpc_envelope loads line tail ≡ parsed e
unfolding parse_jsonrpc_envelope
parse_lem loads line v e tail p q = ground arith

serialize_lem :
    (dumps : Json → String) (e : JsonRpcEnvelope) (b : Bool)
    → serialize_jsonrpc_envelope dumps (typed e) b ≡ ok (dumps (Json.object (to_wire_dict e b)))
unfolding serialize_jsonrpc_envelope coerce_jsonrpc_envelope
serialize_lem dumps e b = refl

-- A canonical envelope is serialised to one text, and parsing that text gives the envelope
-- back, wherever the JSON codec gives back the object that it encoded.
pub parse-serialize :
    (loads : String → Option Json) (dumps : Json → String) (e : JsonRpcEnvelope) (b : Bool)
    (tail : Option String)
    → IsCanonical e
    → loads (dumps (Json.object (to_wire_dict e b))) ≡ some (Json.object (to_wire_dict e b))
    → (line : String) × (serialize_jsonrpc_envelope dumps (typed e) b ≡ ok line)
      × (parse_jsonrpc_envelope loads line tail ≡ parsed e)
parse-serialize loads dumps e b tail h codec = (
  dumps (Json.object (to_wire_dict e b)),
  serialize_lem dumps e b,
  parse_lem loads _ _ e tail codec (coerce-to_wire_dict e b h),
)
