-- ===== src/Retry.antt =====
-- src/codex_agent_sdk/retry.py: `retry_on_overload`.
--
-- The operation is known by the outcome of each attempt, numbered from 1. Delays are floats, so
-- `_compute_retry_delay_seconds` enters as a function of the attempt, which can raise because the
-- caller's `random_jitter` can, and so does the printing of a number in the error's text. The
-- caller's `sleep` enters as what each call raises, if it does: an error or a cancellation. The
-- result comes with the attempts made and the sleeps begun, in order.
pub mod Attempts
use Prim.Native.String
use codex_python_sdk_unoffic.Common.{
  ℕ, zero, suc, ◌+◌, String, Bool, true, false, Option, none, some, List, [], ◌∷◌,
}
use codex_python_sdk_unoffic.Errors.{JsonRpcError, JsonRpcErrorClass}
use codex_python_sdk_unoffic.Rpc.Requests.{
  RpcException, rpc, client_state, Outcome, returned, raised,
}

-- `RetryBudgetExceededError` is a `RetryableOverloadError`, but its handler stands first.
unfoldable pub is_overload : RpcException → Bool
is_overload (rpc e) = elim e.error_class [ JsonRpcErrorClass.retryable_overload ↦ true | _ ↦ false ]
is_overload _ = false

module _ (str : ℕ → String) (max_attempts : ℕ) where
  abbrev exhausted_text : String → String
  exhausted_text m = String.◌++◌ m (
      String.◌++◌ "; local overload retry budget exhausted after "
        (String.◌++◌ (str max_attempts) " attempts"))

  -- the error of a spent budget carries what the last overload carried
  unfoldable pub budget_error : RpcException → RpcException
  budget_error (rpc e) = rpc (record e {
    error_class = JsonRpcErrorClass.retry_budget_exceeded;
    rpc_message = exhausted_text e.rpc_message;
  })
  budget_error exc = exc

pub data Event {ℓ} (D : Type ℓ) : Type ℓ where
  attempted : ℕ → Event D
  sleeps : D → Event D

abbrev pub Attempts {ℓ} : Type ℓ → Type ℓ → Type ℓ
Attempts A D = Outcome A × List (Event D)

module _ {ℓ} {A D : Type ℓ} where
  -- the `try` statement of an attempt, given what the handler of an overload does
  unfoldable pub try_attempt : ℕ → Outcome A → (RpcException → Attempts A D) → Attempts A D
  unfolding is_overload
  try_attempt attempt (returned v) handler = (returned v, attempted attempt ∷ [])
  try_attempt attempt (raised exc) handler = elim (is_overload exc) [
    | true ↦ let (o, events) = handler exc in (o, attempted attempt ∷ events)
    | false ↦ (raised exc, attempted attempt ∷ [])
  ]

  -- the delay and the sleep before what follows
  unfoldable pub pause : Outcome D → (D → Option RpcException) → Attempts A D → Attempts A D
  pause (raised exc) sleep rest = (raised exc, [])
  pause (returned d) sleep rest = elim (sleep d) [
    | some exc ↦ (raised exc, sleeps d ∷ [])
    | none ↦ let (o, events) = rest in (o, sleeps d ∷ events)
  ]

module _ {ℓ} {A D : Type ℓ} (str : ℕ → String) (delay : ℕ → Outcome D)
    (sleep : ℕ → D → Option RpcException) (max_attempts : ℕ) where
  -- the attempt with this number, with some number of attempts left after it
  unfoldable pub attempt_from : (ℕ → Outcome A) → ℕ → ℕ → Attempts A D
  unfolding try_attempt budget_error pause
  attempt_from operation attempt zero =
      try_attempt attempt (operation attempt)
        (λ exc. (raised (budget_error str max_attempts exc), []))
  attempt_from operation attempt (suc left) =
      try_attempt attempt (operation attempt)
        (λ exc. pause (delay attempt) (sleep attempt) (attempt_from operation (attempt + 1) left))

  -- A policy has at least one attempt; without any, the loop would end in the failed assertion.
  unfoldable pub retry_from : (ℕ → Outcome A) → ℕ → Attempts A D
  unfolding attempt_from
  retry_from operation zero = (raised (client_state "assert last_error is not None"), [])
  retry_from operation (suc more) = attempt_from operation 1 more

  unfoldable pub retry_on_overload : (ℕ → Outcome A) → Attempts A D
  unfolding retry_from
  retry_on_overload operation = retry_from operation max_attempts
