-- ===== src/Rpc/Requests/Correlation.antt =====
-- Which waiter a response reaches, and what the answer to an unmatched one is.
use codex_python_sdk_unoffic.Common.{
  ℕ, String, true, none, some, ◌≡◌, ◌≢◌, refl, ap, ◌∙◌, ◌<◌, arith, get_elem?-set,
  lt-length_of_some, length, if◌then◌else◌,
}
use codex_python_sdk_unoffic.Common.Dict
use codex_python_sdk_unoffic.Common.Dict.{get-put, get-remove}
use codex_python_sdk_unoffic.Rpc.Envelope.{JsonRpcId, id_eq, id_beq_iff}
use codex_python_sdk_unoffic.Json.{Json}
use codex_python_sdk_unoffic.Errors.{map_jsonrpc_error}
use codex_python_sdk_unoffic.Rpc.Requests.{
  JsonRpcResponse, success, error, rpc, response_id, duplicate_response, late_response, Outcome,
  returned, raised, FinalizedRequest, FinalizedRequestStatus, FutureState, PendingJsonRpcRequest,
  JsonRpcRequestRegistry, future_state, settle, settle_waiting, settlement, unmatched,
  pop_pending_request, deliver, resolve_response, release, cancel_request,
}
use codex_python_sdk_unoffic.Rpc.Requests.Invariant.{IsValid}
use codex_python_sdk_unoffic.Rpc.Requests.History.{get-evict-put_new}

-- Popping a waiter: the waiter, the id off the table, and the reason in the history.
pop_found :
    (r : JsonRpcRequestRegistry) (i : JsonRpcId) (p : PendingJsonRpcRequest)
    (status : FinalizedRequestStatus)
    → IsValid r
    → Dict.get i r.pending_requests ≡ some p
    → ((pop_pending_request r i status).1 ≡ some p)
      × (Dict.get i (pop_pending_request r i status).0.pending_requests ≡ none)
      × (Dict.get i (pop_pending_request r i status).0.finalized_requests
          ≡ some (record { method = p.method; status = status }))
      × ((pop_pending_request r i status).0.futures ≡ r.futures)
unfolding pop_pending_request
pop_found r i p status v e = (
  ground arith,
  ground (arith, get-remove i i r.pending_requests v.pending_keyed, id_beq_iff i i),
  ground (
    arith,
    get-evict-put_new r.finalized_history_limit i (record { method = p.method; status = status })
        r.finalized_requests v.positive (v.disjoint i p e),
  ),
  ground arith,
)

pop_missing :
    (r : JsonRpcRequestRegistry) (i : JsonRpcId) (status : FinalizedRequestStatus)
    → Dict.get i r.pending_requests ≡ none
    → pop_pending_request r i status ≡ (r, none)
unfolding pop_pending_request
pop_missing r i status e = ground arith

abbrev pub after : JsonRpcRequestRegistry → JsonRpcResponse → JsonRpcRequestRegistry
after r response = (resolve_response r response).0

deliver-waiting :
    (r : JsonRpcRequestRegistry) (response : JsonRpcResponse) (p : PendingJsonRpcRequest)
    → future_state r p.future ≡ some FutureState.waiting
    → deliver r response (some p) ≡ (settle r p.future (settlement response p.method), returned tt)
unfolding deliver
deliver-waiting r response p w = ground arith

-- the registry with the waiter popped
abbrev popped : JsonRpcRequestRegistry → JsonRpcResponse → JsonRpcRequestRegistry
popped r response =
    (pop_pending_request r (response_id response) FinalizedRequestStatus.completed).0

resolve_waiting :
    (r : JsonRpcRequestRegistry) (response : JsonRpcResponse) (p : PendingJsonRpcRequest)
    → IsValid r
    → Dict.get (response_id response) r.pending_requests ≡ some p
    → future_state r p.future ≡ some FutureState.waiting
    → resolve_response r response
      ≡ (settle (popped r response) p.future (settlement response p.method), returned tt)
unfolding resolve_response
resolve_waiting r response p v e w =
    let found = pop_found r (response_id response) p FinalizedRequestStatus.completed v e in
    rw found.0 (deliver-waiting (popped r response) response p (rw found.3 w))

after-waiting :
    (r : JsonRpcRequestRegistry) (response : JsonRpcResponse) (p : PendingJsonRpcRequest)
    → IsValid r
    → Dict.get (response_id response) r.pending_requests ≡ some p
    → future_state r p.future ≡ some FutureState.waiting
    → after r response ≡ settle (popped r response) p.future (settlement response p.method)
after-waiting r response p v e w =
    ap (λ (o : JsonRpcRequestRegistry × Outcome (Unit {0})). o.0)
      (resolve_waiting r response p v e w)

pub resolve_waiting_lem :
    (r : JsonRpcRequestRegistry) (response : JsonRpcResponse) (p : PendingJsonRpcRequest)
    → IsValid r
    → Dict.get (response_id response) r.pending_requests ≡ some p
    → future_state r p.future ≡ some FutureState.waiting
    → ((resolve_response r response).1 ≡ returned tt)
      × (future_state (after r response) p.future ≡ some (settlement response p.method))
      × ((h : ℕ) → h ≢ p.future → future_state (after r response) h ≡ future_state r h)
      × (Dict.get (response_id response) (after r response).pending_requests ≡ none)
resolve_waiting_lem r response p v e w =
    let found = pop_found r (response_id response) p FinalizedRequestStatus.completed v e in
    let set_at = λ (h : ℕ).
      get_elem?-set (popped r response).futures p.future h (settlement response p.method) in
    let inside : p.future < length (popped r response).futures =
      rw found.3 (lt-length_of_some r.futures p.future FutureState.waiting w) in
    let moved = after-waiting r response p v e w in
    (
      rw (resolve_waiting r response p v e w) refl,
      rw moved (ground (arith, set_at p.future)),
      (λ h other. rw moved (ground (arith, set_at h, found.3))),
      rw moved found.1,
    )

-- what a response says to the caller of a request for a method: its result, or the error that
-- stands for its code, message and data, with the method and the response's own id
abbrev pub said : JsonRpcResponse → String → FutureState
said (success s) method = FutureState.result s.result
said (error s) method = FutureState.exception (
    rpc (
      map_jsonrpc_error s.error.code s.error.message
        (if s.error.data_present then s.error.data_value else Json.null) (some method) s.id))

settlement_lem : (x : JsonRpcResponse) (m : String) → settlement x m ≡ said x m
unfolding settlement
settlement_lem (success s) m = refl
settlement_lem (error s) m = refl

-- A response to a pending request whose waiter still waits is returned for, and takes the id off
-- the waiters. The waiter's future gets the result of a success response, and for an error response
-- the exception that `map_jsonrpc_error` makes of its code, message and data (null if absent), the
-- waiter's method and the response's id. Every other future stays as it was.
pub resolve_response_hit :
    (r : JsonRpcRequestRegistry) (response : JsonRpcResponse) (p : PendingJsonRpcRequest)
    → IsValid r
    → Dict.get (response_id response) r.pending_requests ≡ some p
    → future_state r p.future ≡ some FutureState.waiting
    → ((resolve_response r response).1 ≡ returned tt)
      × (future_state (after r response) p.future ≡ some (said response p.method))
      × ((h : ℕ) → h ≢ p.future → future_state (after r response) h ≡ future_state r h)
      × (Dict.get (response_id response) (after r response).pending_requests ≡ none)
resolve_response_hit r response p v e w =
    let hit = resolve_waiting_lem r response p v e w in
    (hit.0, hit.1 ∙ ap some (settlement_lem response p.method), hit.2, hit.3)

-- A response to an id that no waiter has changes nothing. It is unknown if the history does not
-- hold the id, a duplicate if the history says completed, and late otherwise.
pub resolve_response_miss :
    (r : JsonRpcRequestRegistry) (response : JsonRpcResponse)
    → Dict.get (response_id response) r.pending_requests ≡ none
    → resolve_response r response ≡ (
      r,
      raised
          (unmatched (response_id response) (Dict.get (response_id response) r.finalized_requests)),
    )
unfolding resolve_response deliver
resolve_response_miss r response e =
    rw (pop_missing r (response_id response) FinalizedRequestStatus.completed e) refl

miss_with :
    (s : JsonRpcRequestRegistry) (response : JsonRpcResponse) (i : JsonRpcId) (f : FinalizedRequest)
    → response_id response ≡ i
    → Dict.get i s.pending_requests ≡ none
    → Dict.get i s.finalized_requests ≡ some f
    → resolve_response s response ≡ (s, raised (unmatched (response_id response) (some f)))
miss_with s response i f same gone kept =
    resolve_response_miss s response (rw same gone)
    ∙ ap (λ o. (s, raised (unmatched (response_id response) o))) (rw same kept)

-- After a response has reached its waiter, another response with the same id is a duplicate, and
-- changes nothing.
pub resolve_response_twice :
    (r : JsonRpcRequestRegistry) (first second : JsonRpcResponse) (p : PendingJsonRpcRequest)
    → IsValid r
    → Dict.get (response_id first) r.pending_requests ≡ some p
    → future_state r p.future ≡ some FutureState.waiting
    → response_id second ≡ response_id first
    → resolve_response (after r first) second
      ≡ (after r first, raised (duplicate_response (response_id second) p.method))
unfolding unmatched
resolve_response_twice r first second p v e w same =
    let found = pop_found r (response_id first) p FinalizedRequestStatus.completed v e in
    miss_with (after r first) second (response_id first)
      (record { method = p.method; status = FinalizedRequestStatus.completed }) same
      (rw (after-waiting r first p v e w) found.1) (rw (after-waiting r first p v e w) found.2)

-- what follows a local release of the waiter
abbrev pub IsLocal : FinalizedRequestStatus → Type 0
IsLocal reason = reason ≢ FinalizedRequestStatus.completed

late :
    (j i : JsonRpcId) (reason : FinalizedRequestStatus) (method : String)
    → IsLocal reason
    → j ≡ i
    → unmatched j (some (record { method = method; status = reason }))
      ≡ late_response i reason method
unfolding unmatched
late j i FinalizedRequestStatus.completed method local same = absurd (local refl)
late j i FinalizedRequestStatus.cancelled method local same = rw same
late j i FinalizedRequestStatus.timed_out method local same = rw same
late j i FinalizedRequestStatus.closed method local same = rw same
late j i FinalizedRequestStatus.failed method local same = rw same

settle_waiting-tables :
    (r : JsonRpcRequestRegistry) (h : ℕ) (f : FutureState)
    → ((settle_waiting r h f).pending_requests ≡ r.pending_requests)
      × ((settle_waiting r h f).finalized_requests ≡ r.finalized_requests)
unfolding settle_waiting
settle_waiting-tables r h f = ground arith

pub release_found :
    (r : JsonRpcRequestRegistry) (i : JsonRpcId) (reason : FinalizedRequestStatus) (f : FutureState)
    (p : PendingJsonRpcRequest)
    → IsValid r
    → Dict.get i r.pending_requests ≡ some p
    → ((release r i reason f).1 ≡ true)
      × (Dict.get i (release r i reason f).0.pending_requests ≡ none)
      × (Dict.get i (release r i reason f).0.finalized_requests
          ≡ some (record { method = p.method; status = reason }))
unfolding release
release_found r i reason f p v e =
    let found = pop_found r i p reason v e in
    let tables = settle_waiting-tables (pop_pending_request r i reason).0 p.future f in
    rw (found.0, release) (refl, rw tables.0 found.1, rw tables.1 found.2)

-- After a waiter has been released by `cancel_request`, the response that comes late is refused as
-- late, with the reason of the release, and changes nothing.
pub cancel_then_resolve :
    (r : JsonRpcRequestRegistry) (i : JsonRpcId) (reason : FinalizedRequestStatus)
    (response : JsonRpcResponse) (p : PendingJsonRpcRequest)
    → IsValid r
    → IsLocal reason
    → Dict.get i r.pending_requests ≡ some p
    → response_id response ≡ i
    → ((cancel_request r i reason).1 ≡ true)
      × (resolve_response (cancel_request r i reason).0 response
          ≡ ((cancel_request r i reason).0, raised (late_response i reason p.method)))
unfolding cancel_request
cancel_then_resolve r i reason response p v local e same =
    let released = release_found r i reason FutureState.cancelled p v e in
    (
      released.0,
      miss_with (cancel_request r i reason).0 response i
            (record { method = p.method; status = reason }) same released.1 released.2
          ∙ ap (λ x. ((cancel_request r i reason).0, raised x))
              (late (response_id response) i reason p.method local same),
    )
