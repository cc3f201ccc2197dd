-- ===== src/Errors/Mapping.antt =====
-- src/codex_agent_sdk/errors.py: which payloads become which class.
use codex_python_sdk_unoffic.Common.{
  sym, ◌∙◌, ℤ, String, Bool, true, false, Option, ◌≡◌, ◌↔◌, ◌⊎◌, inl, inr, arith, Bool-cases,
  int_leb, int_beq_iff, ap,
}
use codex_python_sdk_unoffic.Common.Strings.{codes, lower, contains, codes_beq_iff}
use codex_python_sdk_unoffic.Json.{Json}
use codex_python_sdk_unoffic.Rpc.Envelope.{JsonRpcId}
use codex_python_sdk_unoffic.Errors.{
  JsonRpcErrorClass, retryable_overload, retry_budget_exceeded, overload_error_code,
  json_rpc_server_error_min, json_rpc_server_error_max, is_overload_error,
  contains_retry_budget_text, server_error_class, class_of, map_jsonrpc_error, is_retryable_error,
}
use codex_python_sdk_unoffic.Errors.Marker.{Marked, contains_overload_marker_iff}

-- the server-defined codes, -32099 to -32000
abbrev pub IsServerCode : ℤ → Type 0
IsServerCode code =
    (int_leb json_rpc_server_error_min code ≡ true)
    × (int_leb code json_rpc_server_error_max ≡ true)

-- The payload says "overload": by its code, by its message or somewhere in its data.
abbrev pub SaysOverload : ℤ → String → Json → Type 0
SaysOverload code message data_value =
    (code ≡ overload_error_code)
    ⊎ (contains (codes "overload") (lower message) ≡ true)
    ⊎ (contains (codes "retry later") (lower message) ≡ true)
    ⊎ Marked data_value

is_overload_error_iff :
    (code : ℤ) (m : String) (d : Json) → (is_overload_error code m d ≡ true) ↔ SaysOverload code m d
unfolding is_overload_error
is_overload_error_iff code m d = (
  (λ h. ground (arith, int_beq_iff code overload_error_code, contains_overload_marker_iff d)),
  (λ h. ground (arith, int_beq_iff code overload_error_code, contains_overload_marker_iff d)),
)

-- the message that marks a handshake error
abbrev pub IsHandshakeText : String → Type 0
IsHandshakeText m = (lower m ≡ codes "not initialized") ⊎ (lower m ≡ codes "already initialized")

abbrev retries : JsonRpcErrorClass → Bool
retries retryable_overload = true
retries retry_budget_exceeded = true
retries _ = false

server_retries_iff :
    (code : ℤ) (m : String) (d : Json)
    → (retries (server_error_class code m d) ≡ true)
      ↔ ((¬ IsHandshakeText m) × SaysOverload code m d)
unfolding server_error_class
server_retries_iff code m d = (
  (λ h. ground (
    arith,
    codes_beq_iff (lower m) (codes "not initialized"),
    codes_beq_iff (lower m) (codes "already initialized"),
    is_overload_error_iff code m d,
  )),
  (λ h. ground (
    arith,
    codes_beq_iff (lower m) (codes "not initialized"),
    codes_beq_iff (lower m) (codes "already initialized"),
    is_overload_error_iff code m d,
  )),
)

server_code-classed :
    (code : ℤ) (m : String) (d : Json)
    → IsServerCode code
    → class_of code m d ≡ server_error_class code m d
unfolding class_of
server_code-classed code m d h = ground arith

other_code-final :
    (code : ℤ) (m : String) (d : Json) → ¬ IsServerCode code → retries (class_of code m d) ≡ false
unfolding class_of
other_code-final code m d h = ground arith

IsServerCode-cases : (code : ℤ) → IsServerCode code ⊎ (¬ IsServerCode code)
IsServerCode-cases code = elim (Bool-cases (int_leb json_rpc_server_error_min code)) [
  | inl low ↦ elim (Bool-cases (int_leb code json_rpc_server_error_max)) [
    | inl high ↦ inl (low, high)
    | inr high ↦ inr (λ h. cc (high, h.1))
  ]
  | inr low ↦ inr (λ h. cc (low, h.0))
]

retryable-retries :
    (code : ℤ) (m : String) (d : Json) (method : Option String) (i : JsonRpcId)
    → is_retryable_error (map_jsonrpc_error code m d method i) ≡ retries (class_of code m d)
unfolding map_jsonrpc_error is_retryable_error
retryable-retries code m d method i = ground arith

class-retry_budget_iff :
    (code : ℤ) (m : String) (d : Json)
    → (class_of code m d ≡ retry_budget_exceeded)
      ↔ ((retries (class_of code m d) ≡ true) × (contains_retry_budget_text m ≡ true))
unfolding class_of server_error_class
class-retry_budget_iff code m d = (λ h. ground arith, λ h. ground arith)

abbrev pub mapped : ℤ → String → Json → Option String → JsonRpcId → JsonRpcErrorClass
mapped code m d method i = (map_jsonrpc_error code m d method i).error_class

-- `is_retryable_error` on a mapped payload says yes exactly when the code is server-defined, the
-- message is neither of the two handshake messages, and the payload says "overload" by its code,
-- its message or its data.
pub is_retryable_error-map_iff :
    (code : ℤ) (m : String) (d : Json) (method : Option String) (i : JsonRpcId)
    → (is_retryable_error (map_jsonrpc_error code m d method i) ≡ true)
      ↔ (IsServerCode code × (¬ IsHandshakeText m) × SaysOverload code m d)
is_retryable_error-map_iff code m d method i = (sound, complete)
  where
    sound :
        is_retryable_error (map_jsonrpc_error code m d method i) ≡ true
        → (IsServerCode code × (¬ IsHandshakeText m) × SaysOverload code m d)
    sound h = elim (IsServerCode-cases code) [
      | inl s ↦
          let both = (server_retries_iff code m d).0 (
            ap retries (sym (server_code-classed code m d s))
            ∙ (sym (retryable-retries code m d method i) ∙ h)) in
          (s, both.0, both.1)
      | inr other ↦ cc (other_code-final code m d other, retryable-retries code m d method i)
    ]

    complete :
        (IsServerCode code × (¬ IsHandshakeText m) × SaysOverload code m d)
        → is_retryable_error (map_jsonrpc_error code m d method i) ≡ true
    complete h =
        retryable-retries code m d method i
        ∙ (ap retries (server_code-classed code m d h.0)
            ∙ (server_retries_iff code m d).1 (h.1, h.2))

-- A mapped payload's class is the spent retry budget exactly when the error is retryable and its
-- message names a retry budget, a retry limit or too many failed attempts.
pub map-retry_budget_iff :
    (code : ℤ) (m : String) (d : Json) (method : Option String) (i : JsonRpcId)
    → (mapped code m d method i ≡ retry_budget_exceeded) ↔ (
        (is_retryable_error (map_jsonrpc_error code m d method i) ≡ true)
        × (contains_retry_budget_text m ≡ true))
unfolding map_jsonrpc_error
map-retry_budget_iff code m d method i =
    rw (retryable-retries code m d method i) (class-retry_budget_iff code m d)
