-- ===== src/Tests/Wire.antt =====
-- Envelopes and error payloads at concrete inputs.
use codex_python_sdk_unoffic.Common.{
  pos, negsuc, String, true, false, Option, none, some, [], ◌∷◌, ◌≡◌, ◌↔◌, refl,
}
use codex_python_sdk_unoffic.Common.Strings.{lower, contains, codes_beq}
use codex_python_sdk_unoffic.Json.{Json, Fields, get_field, fields}
use codex_python_sdk_unoffic.Errors.{
  retry_budget_exceeded, not_initialized, map_jsonrpc_error, is_retryable_error, class_of,
  server_error_class, contains_retry_budget_text, is_overload_error,
}
use codex_python_sdk_unoffic.Errors.Mapping.{
  IsServerCode, IsHandshakeText, SaysOverload, mapped, is_retryable_error-map_iff,
}
use codex_python_sdk_unoffic.Rpc.Envelope.{
  JsonRpcId, JsonRpcEnvelope, raw, typed, ok, coerce_jsonrpc_envelope, to_wire_dict, parsed,
  parse_jsonrpc_envelope, serialize_jsonrpc_envelope,
}
use codex_python_sdk_unoffic.Rpc.Envelope.Shape.{Reads, coerce_iff}
use codex_python_sdk_unoffic.Rpc.Envelope.RoundTrip.{coerce-to_wire_dict, parse-serialize}

abbrev call : JsonRpcEnvelope
call = JsonRpcEnvelope.request (record {
  id = JsonRpcId.int (pos 3);
  method = "turn/start";
  params = Json.text "p";
  params_present = true;
})

abbrev call_fields : Fields
call_fields =
    fields (
      ("id", Json.int (pos 3))
      ∷ ("method", Json.text "turn/start")
      ∷ ("params", Json.text "p")
      ∷ [])

wire : to_wire_dict call false ≡ call_fields
unfolding to_wire_dict
wire = refl

reads : coerce_jsonrpc_envelope (raw (Json.object call_fields)) ≡ ok call
unfolding coerce_jsonrpc_envelope get_field
reads = refl

coerce_iff_example :
    (coerce_jsonrpc_envelope (raw (Json.object call_fields)) ≡ ok call) ↔ Reads call_fields call
coerce_iff_example = coerce_iff call_fields call

coerce-to_wire_dict_example :
    coerce_jsonrpc_envelope (raw (Json.object (to_wire_dict call true))) ≡ ok call
coerce-to_wire_dict_example = coerce-to_wire_dict call true tt

-- a codec that knows one object
abbrev one_object : String → Option Json
one_object line = some (Json.object (to_wire_dict call false))

abbrev one_line : Json → String
one_line v = "{\"id\":3}"

parse-serialize_example :
    (line : String) × (serialize_jsonrpc_envelope one_line (typed call) false ≡ ok line)
    × (parse_jsonrpc_envelope one_object line none ≡ parsed call)
parse-serialize_example = parse-serialize one_object one_line call false none tt refl

abbrev overloaded : Json
overloaded = Json.object (fields (("codexErrorInfo", Json.text "Server_Overloaded") ∷ []))

is_retryable_error-map_iff_example :
    (is_retryable_error (map_jsonrpc_error (negsuc 32000) "busy" Json.null none JsonRpcId.null)
      ≡ true)
    ↔ (IsServerCode (negsuc 32000)
        × (¬ IsHandshakeText "busy")
        × SaysOverload (negsuc 32000) "busy" Json.null)
is_retryable_error-map_iff_example =
    is_retryable_error-map_iff (negsuc 32000) "busy" Json.null none JsonRpcId.null

budget_runs :
    mapped (negsuc 32000) "Retry limit hit" Json.null none JsonRpcId.null ≡ retry_budget_exceeded
unfolding map_jsonrpc_error class_of server_error_class is_overload_error contains_retry_budget_text
    contains codes_beq lower
budget_runs = refl

handshake_runs :
    mapped (negsuc 32000) "Not Initialized" Json.null none JsonRpcId.null ≡ not_initialized
unfolding map_jsonrpc_error class_of server_error_class codes_beq lower
handshake_runs = refl
