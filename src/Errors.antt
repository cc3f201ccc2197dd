-- ===== src/Errors.antt =====
-- src/codex_agent_sdk/errors.py: the mapping of a JSON-RPC error payload to an exception class.
pub mod Mapping
pub mod Marker
use codex_python_sdk_unoffic.Common.{
  ℤ, pos, negsuc, String, Bool, true, false, Option, none, some, ◌||◌, ◌&&◌, ◌==◌, string_eq,
  int_beq, int_leb, if◌then◌else◌,
}
use codex_python_sdk_unoffic.Common.Strings.{codes, lower, contains, codes_beq}
use codex_python_sdk_unoffic.Json.{Json, Items, Fields}
use codex_python_sdk_unoffic.Rpc.Envelope.{JsonRpcId}

-- The classes below `JsonRpcError` that `map_jsonrpc_error` raises.
pub data JsonRpcErrorClass : Type 0 where
  json_rpc_error parse_error invalid_request method_not_found invalid_params internal_error :
      JsonRpcErrorClass
  server_error not_initialized already_initialized retryable_overload retry_budget_exceeded :
      JsonRpcErrorClass

pub record JsonRpcError : Type 0 where
  pub error_class : JsonRpcErrorClass
  pub code : ℤ
  pub rpc_message : String
  pub data_value : Json
  pub method : Option String
  pub request_id : JsonRpcId

abbrev pub overload_error_code : ℤ
overload_error_code = negsuc 32000

abbrev pub json_rpc_server_error_min : ℤ
json_rpc_server_error_min = negsuc 32098

abbrev pub json_rpc_server_error_max : ℤ
json_rpc_server_error_max = negsuc 31999

-- `data.lower() == "server_overloaded"`
unfoldable pub is_marker_text : String → Bool
is_marker_text s = codes_beq (lower s) (codes "server_overloaded")

abbrev pub is_info_key : String → Bool
is_info_key key =
    key == "codexErrorInfo"
    || (key == "codex_error_info" || (key == "errorInfo" || key == "error_info"))

unfoldable mutual
  pub contains_overload_marker : Json → Bool
  contains_overload_marker (Json.text s) = is_marker_text s
  contains_overload_marker (Json.object fs) = any_field_marked fs
  contains_overload_marker (Json.array xs) = any_item_marked xs
  contains_overload_marker _ = false

  -- the loop over `data.items()`
  pub any_field_marked : Fields → Bool
  any_field_marked Fields.end = false
  any_field_marked (Fields.field key value fs) =
      let marked = contains_overload_marker value in
      (is_info_key key && marked) || (marked || any_field_marked fs)

  -- `any(... for value in data)`
  pub any_item_marked : Items → Bool
  any_item_marked Items.nil = false
  any_item_marked (Items.cons x xs) = contains_overload_marker x || any_item_marked xs

unfoldable pub is_overload_error : ℤ → String → Json → Bool
is_overload_error code message data_value =
    if int_beq code overload_error_code
    then true
    else if contains (codes "overload") (lower message)
        || contains (codes "retry later") (lower message)
    then true
    else contains_overload_marker data_value

unfoldable pub contains_retry_budget_text : String → Bool
contains_retry_budget_text message =
    contains (codes "retry budget") (lower message)
    || (contains (codes "retry limit") (lower message)
        || contains (codes "too many failed attempts") (lower message))

-- the branch for the server-defined range
unfoldable pub server_error_class : ℤ → String → Json → JsonRpcErrorClass
server_error_class code message data_value =
    if codes_beq (lower message) (codes "not initialized")
    then not_initialized
    else if codes_beq (lower message) (codes "already initialized")
    then already_initialized
    else if is_overload_error code message data_value
    then (if contains_retry_budget_text message then retry_budget_exceeded else retryable_overload)
    else server_error

-- the chain of tests of `map_jsonrpc_error`
unfoldable pub class_of : ℤ → String → Json → JsonRpcErrorClass
class_of code message data_value =
    if int_beq code (negsuc 32699)
    then parse_error
    else if int_beq code (negsuc 32599)
    then invalid_request
    else if int_beq code (negsuc 32600)
    then method_not_found
    else if int_beq code (negsuc 32601)
    then invalid_params
    else if int_beq code (negsuc 32602)
    then internal_error
    else if int_leb json_rpc_server_error_min code && int_leb code json_rpc_server_error_max
    then server_error_class code message data_value
    else json_rpc_error

unfoldable pub map_jsonrpc_error : ℤ → String → Json → Option String → JsonRpcId → JsonRpcError
map_jsonrpc_error code message data_value method request_id = record {
  error_class = class_of code message data_value;
  code = code;
  rpc_message = message;
  data_value = data_value;
  method = method;
  request_id = request_id;
}

-- `isinstance(exc, RetryableOverloadError)`: the class and its subclass
unfoldable pub is_retryable_error : JsonRpcError → Bool
is_retryable_error e = elim e.error_class [
  | retryable_overload ↦ true
  | retry_budget_exceeded ↦ true
  | _ ↦ false
]
