-- ===== src/Rpc/Connection/Timeouts.antt =====
-- src/codex_agent_sdk/rpc/connection.py: `_await_request_result` when its timeout strikes, against
-- the response that the dispatcher may have read just before, or reads later.
use codex_python_sdk_unoffic.Common.{String, false, Option, none, some, ◌≡◌, refl, ap, ◌∙◌, arith}
use codex_python_sdk_unoffic.Common.Dict
use codex_python_sdk_unoffic.Rpc.Envelope.{JsonRpcId, id_eq}
use codex_python_sdk_unoffic.Rpc.Requests.{
  RpcException, request_timeout, FinalizedRequestStatus, FutureState, future_state,
  PendingJsonRpcRequest, JsonRpcRequestRegistry, JsonRpcResponse, response_id, settlement,
  cancel_request, release, pop_pending_request,
}
use codex_python_sdk_unoffic.Rpc.Requests.Invariant.{IsValid}
use codex_python_sdk_unoffic.Rpc.Requests.Correlation.{after, resolve_waiting_lem, release_found}
use codex_python_sdk_unoffic.Rpc.Dispatcher.{dispatch_round, envelope}
use codex_python_sdk_unoffic.Rpc.Dispatcher.Failure.{envelope_of, late_response_ignored}
use codex_python_sdk_unoffic.Rpc.Connection.{
  JsonRpcConnection, with_requests, Awaited, raises, future_result, or_awaited, on_timeout,
}

cancel_missing :
    (r : JsonRpcRequestRegistry) (i : JsonRpcId) (reason : FinalizedRequestStatus)
    → Dict.get i r.pending_requests ≡ none
    → cancel_request r i reason ≡ (r, false)
unfolding cancel_request release pop_pending_request
cancel_missing r i reason gone = ground (arith, gone)

-- no waiter: nothing changes, and a settled future's outcome is the call's
missing_timeout :
    (c : JsonRpcConnection) (p : PendingJsonRpcRequest) (f : FutureState)
    → Dict.get p.request_id c.dispatcher.requests.pending_requests ≡ none
    → future_state c.dispatcher.requests p.future ≡ some f
    → on_timeout c p
      ≡ (c, or_awaited (future_result f) (raises (request_timeout p.method p.request_id)))
unfolding on_timeout
missing_timeout c p f gone e =
    rw
      (
        cancel_missing c.dispatcher.requests p.request_id FinalizedRequestStatus.timed_out gone,
        e,
        on_timeout,
      )
      refl

settled_outcome :
    (x : JsonRpcResponse) (m : String) (o : Awaited)
    → some (or_awaited (future_result (settlement x m)) o) ≡ future_result (settlement x m)
unfolding settlement
settled_outcome (JsonRpcResponse.success s) m o = refl
settled_outcome (JsonRpcResponse.error s) m o = refl

module _ (write : JsonRpcResponse → Option RpcException) where
  -- For a request whose waiter still waits: if its timeout strikes before its response is read, the
  -- call raises the timeout error, the waiter is gone, and the response, when it comes, changes
  -- nothing; if the response is read first, the timeout changes nothing and the call ends with
  -- what the response says.
  pub timeout_race :
      (c : JsonRpcConnection) (p : PendingJsonRpcRequest) (x : JsonRpcResponse)
      → IsValid c.dispatcher.requests
      → Dict.get (response_id x) c.dispatcher.requests.pending_requests ≡ some p
      → future_state c.dispatcher.requests p.future ≡ some FutureState.waiting
      → ((on_timeout c p).1 ≡ raises (request_timeout p.method (response_id x)))
        × (Dict.get (response_id x) (on_timeout c p).0.dispatcher.requests.pending_requests ≡ none)
        × (dispatch_round write (on_timeout c p).0.dispatcher (envelope (envelope_of write x))
            ≡ (on_timeout c p).0.dispatcher)
        × ((on_timeout (with_requests c (after c.dispatcher.requests x)) p).0
            ≡ with_requests c (after c.dispatcher.requests x))
        × (some (on_timeout (with_requests c (after c.dispatcher.requests x)) p).1
            ≡ future_result (settlement x p.method))
  unfolding on_timeout cancel_request
  timeout_race c p x v e w =
      let r = c.dispatcher.requests in
      let own : p.request_id ≡ response_id x = v.own_id (response_id x) p e in
      let released =
        release_found r (response_id x) FinalizedRequestStatus.timed_out FutureState.cancelled p v
          e in
      let hit = resolve_waiting_lem r x p v e w in
      let late =
        missing_timeout (with_requests c (after r x)) p (settlement x p.method) (rw own hit.3)
          hit.1 in
      (
        rw (own, released.0) refl,
        rw own released.1,
        rw own (
            late_response_ignored write
              (record c.dispatcher {
                requests = (cancel_request r (response_id x) FinalizedRequestStatus.timed_out).0;
              })
              x (record { method = p.method; status = FinalizedRequestStatus.timed_out }) released.1
              released.2 (λ h. absurd (ground (arith, h)))),
        ap (λ (y : JsonRpcConnection × Awaited). y.0) late,
        ap (λ (y : JsonRpcConnection × Awaited). some y.1) late ∙ settled_outcome x p.method _,
      )
