-- ===== src/Tests/Retry.antt =====
-- src/codex_agent_sdk/retry.py at a concrete operation: overloaded once, then a result.
use codex_python_sdk_unoffic.Common.{ℕ, suc, negsuc, String, Option, none, some, [], ◌∷◌, ◌≡◌, refl}
use codex_python_sdk_unoffic.Json.{Json}
use codex_python_sdk_unoffic.Errors.{JsonRpcError, JsonRpcErrorClass}
use codex_python_sdk_unoffic.Rpc.Envelope.{JsonRpcId}
use codex_python_sdk_unoffic.Rpc.Requests.{rpc, external, RpcException, Outcome, returned, raised}
use codex_python_sdk_unoffic.Retry.{
  retry_on_overload, retry_from, attempt_from, try_attempt, pause, is_overload, attempted, sleeps,
}

abbrev overloaded : JsonRpcError
overloaded = record {
  error_class = JsonRpcErrorClass.retryable_overload;
  code = negsuc 32000;
  rpc_message = "busy";
  data_value = Json.null;
  method = none;
  request_id = JsonRpcId.null;
}

abbrev second_time : ℕ → Outcome ℕ
second_time (suc (suc n)) = returned 7
second_time _ = raised (rpc overloaded)

abbrev three : ℕ → String
three n = "3"

-- the sleep ends well, or is cancelled
abbrev rests : ℕ → ℕ → Option RpcException
rests n d = none

abbrev cancelled : ℕ → ℕ → Option RpcException
cancelled n d = some (external "CancelledError")

abbrev seconds : ℕ → Outcome ℕ
seconds n = returned n

succeeds :
    retry_on_overload three seconds rests 3 second_time
    ≡ (returned 7, attempted 1 ∷ sleeps 1 ∷ attempted 2 ∷ [])
unfolding retry_on_overload retry_from attempt_from try_attempt pause is_overload
succeeds = refl

stops :
    retry_on_overload three seconds cancelled 3 second_time
    ≡ (raised (external "CancelledError"), attempted 1 ∷ sleeps 1 ∷ [])
unfolding retry_on_overload retry_from attempt_from try_attempt pause is_overload
stops = refl
