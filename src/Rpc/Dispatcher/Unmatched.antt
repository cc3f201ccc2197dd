-- ===== src/Rpc/Dispatcher/Unmatched.antt =====
-- src/codex_agent_sdk/rpc/router.py: a response that no waiter has asked for, or asks for any more.
use codex_python_sdk_unoffic.Common.{String, false, Option, none, some, ◌≡◌, refl, sym, subst, ap}
use codex_python_sdk_unoffic.Common.Dict
use codex_python_sdk_unoffic.Rpc.Envelope.{id_eq}
use codex_python_sdk_unoffic.Rpc.Requests.{
  RpcException, unknown_response_id, duplicate_response, FinalizedRequest, FinalizedRequestStatus,
  JsonRpcResponse, response_id, raised, unmatched,
}
use codex_python_sdk_unoffic.Rpc.Requests.Correlation.{resolve_response_miss}
use codex_python_sdk_unoffic.Rpc.Dispatcher.{
  JsonRpcBackgroundDispatcher, envelope, dispatch_round, dispatch_envelope, dispatch_response,
  ignore_late, conclude,
}
use codex_python_sdk_unoffic.Rpc.Dispatcher.Runs.{IsSound}
use codex_python_sdk_unoffic.Rpc.Dispatcher.Failure.{IsShut, exception-IsShut, envelope_of}

-- What a response comes to, by what the history says of its id: it shuts the dispatcher if the id
-- is not there or was answered, and changes nothing if the waiter was released otherwise.
abbrev pub Verdict :
    JsonRpcResponse
    → (before after : JsonRpcBackgroundDispatcher) → Option FinalizedRequest
    → Type 0
Verdict x before after none = IsShut before after (unknown_response_id (response_id x))
Verdict x before after (some f) = elim f.status [
  | FinalizedRequestStatus.completed ↦
      IsShut before after (duplicate_response (response_id x) f.method)
  | _ ↦ after ≡ before
]

missed :
    (d : JsonRpcBackgroundDispatcher) (x : JsonRpcResponse) (o : Option FinalizedRequest)
    → Dict.get (response_id x) d.requests.pending_requests ≡ none
    → Dict.get (response_id x) d.requests.finalized_requests ≡ o
    → dispatch_response d x ≡ (d, ignore_late (raised (unmatched (response_id x) o)))
unfolding dispatch_response
missed d x o p h = rw (resolve_response_miss d.requests x p, h) refl

module _ (sender : JsonRpcResponse → Option RpcException) where
  read_unmatched :
      (d : JsonRpcBackgroundDispatcher) (x : JsonRpcResponse) (o : Option FinalizedRequest)
      → Dict.get (response_id x) d.requests.pending_requests ≡ none
      → Dict.get (response_id x) d.requests.finalized_requests ≡ o
      → dispatch_round sender d (envelope (envelope_of sender x))
        ≡ conclude sender (d, ignore_late (raised (unmatched (response_id x) o)))
  unfolding dispatch_round dispatch_envelope
  read_unmatched d (JsonRpcResponse.success r) o p h =
      ap (conclude sender) (missed d (JsonRpcResponse.success r) o p h)
  read_unmatched d (JsonRpcResponse.error r) o p h =
      ap (conclude sender) (missed d (JsonRpcResponse.error r) o p h)

  concludes :
      (d : JsonRpcBackgroundDispatcher) (x : JsonRpcResponse) (m : String)
      (s : FinalizedRequestStatus)
      → IsSound d
      → d.stop_requested ≡ false
      → Verdict x d
          (conclude sender (
            d,
            ignore_late
                (raised (unmatched (response_id x) (some (record { method = m; status = s })))),
          ))
          (some (record { method = m; status = s }))
  unfolding ignore_late unmatched
  concludes d x m FinalizedRequestStatus.completed v go =
      exception-IsShut d (duplicate_response (response_id x) m) v go
  concludes d x m FinalizedRequestStatus.cancelled v go = refl
  concludes d x m FinalizedRequestStatus.timed_out v go = refl
  concludes d x m FinalizedRequestStatus.closed v go = refl
  concludes d x m FinalizedRequestStatus.failed v go = refl

  -- A response to an id that no waiter has, read by a dispatcher that was not asked to stop: if the
  -- bounded history holds the id as released by a timeout, a cancellation, a close or a failure,
  -- nothing changes; if it holds the id as answered, the dispatcher is shut by the error of a
  -- duplicate; and if it does not hold the id, or no longer, by the error of an unknown id.
  pub unmatched_response_lem :
      (d : JsonRpcBackgroundDispatcher) (x : JsonRpcResponse) (o : Option FinalizedRequest)
      → IsSound d
      → d.stop_requested ≡ false
      → Dict.get (response_id x) d.requests.pending_requests ≡ none
      → Dict.get (response_id x) d.requests.finalized_requests ≡ o
      → Verdict x d (dispatch_round sender d (envelope (envelope_of sender x))) o
  unfolding ignore_late unmatched
  unmatched_response_lem d x none v go p h =
      subst (λ d'. IsShut d d' (unknown_response_id (response_id x)))
        (sym (read_unmatched d x none p h))
        (exception-IsShut d (unknown_response_id (response_id x)) v go)
  unmatched_response_lem d x (some f) v go p h =
      subst (λ d'. Verdict x d d' (some f)) (sym (read_unmatched d x (some f) p h))
        (concludes d x f.method f.status v go)
