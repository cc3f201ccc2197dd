-- ===== src/Rpc/Requests/Settlement.antt =====
-- A future is settled at most once, by whatever sequence of calls.
use codex_python_sdk_unoffic.Common.{
  ℕ, String, true, Option, none, some, List, [], ◌∷◌, ◌≡◌, arith, inl, inr, Bool-cases,
  Option-cases, get_elem?-set, get_elem?-append_old, lt-length_of_some, nat_beq_iff,
}
use codex_python_sdk_unoffic.Rpc.Envelope.{JsonRpcId}
use codex_python_sdk_unoffic.Rpc.Requests.{
  JsonRpcResponse, response_id, RpcException, FinalizedRequestStatus, FutureState, is_done,
  PendingJsonRpcRequest, JsonRpcRequestRegistry, future_state, future_done, settle_waiting,
  settlement, observe, allocate, admit, register_request, remember_finalized_request,
  pop_pending_request, deliver, resolve_response, release, cancel_request, fail_request,
  remember_all, fail_waiters, fail_all, cancel_waiter,
}
use codex_python_sdk_unoffic.Rpc.Requests.Runs.{
  Step, registered, resolved, cancelled, failed, all_failed, waiter_cancelled, observed, Reach,
  here, next,
}

module _ (h : ℕ) (f : FutureState) (done : is_done f ≡ true) where
  -- the future is settled this way
  abbrev pub Settled : JsonRpcRequestRegistry → Type 0
  Settled r = future_state r h ≡ some f

  settle_waiting-Settled :
      (r : JsonRpcRequestRegistry) (g : ℕ) (x : FutureState)
      → Settled r
      → Settled (settle_waiting r g x)
  unfolding settle_waiting
  settle_waiting-Settled r g x s = elim (Bool-cases (future_done r g)) [
    | inl d ↦ rw d s
    | inr w ↦ rw w (ground (arith, get_elem?-set r.futures g h x, nat_beq_iff g h))
  ]

  deliver-Settled :
      (r : JsonRpcRequestRegistry) (response : JsonRpcResponse) (p : Option PendingJsonRpcRequest)
      → Settled r
      → Settled (deliver r response p).0
  unfolding deliver
  deliver-Settled r response none s = s
  deliver-Settled r response (some p) s = elim (Bool-cases (future_done r p.future)) [
    | inl d ↦ rw d s
    | inr w ↦ rw w (
        ground (
          arith,
          get_elem?-set r.futures p.future h (settlement response p.method),
          nat_beq_iff p.future h,
        ))
  ]

  observe-Settled : (r : JsonRpcRequestRegistry) (i : JsonRpcId) → Settled r → Settled (observe r i)
  unfolding observe
  observe-Settled r i s = ground arith

  allocate-Settled :
      (r : JsonRpcRequestRegistry) (i : JsonRpcId) → Settled r → Settled (allocate r i).0
  unfolding allocate
  allocate-Settled r i s = ground arith

  admit-Settled :
      (r : JsonRpcRequestRegistry) (method : String) (i : JsonRpcId)
      → Settled r
      → Settled (admit r method i).0
  unfolding admit
  admit-Settled r method i s = ground (
    arith,
    get_elem?-append_old r.futures (FutureState.waiting ∷ []) h (lt-length_of_some r.futures h f s),
  )

  pop-Settled :
      (r : JsonRpcRequestRegistry) (i : JsonRpcId) (status : FinalizedRequestStatus)
      → Settled r
      → Settled (pop_pending_request r i status).0
  unfolding pop_pending_request
  pop-Settled r i status s = ground arith

  release-Settled :
      (r : JsonRpcRequestRegistry) (i : JsonRpcId) (reason : FinalizedRequestStatus)
      (x : FutureState)
      → Settled r
      → Settled (release r i reason x).0
  unfolding release
  release-Settled r i reason x s = elim (Option-cases (pop_pending_request r i reason).1) [
    | inl miss ↦ rw (miss, release) (pop-Settled r i reason s)
    | inr (p, hit) ↦
        rw (hit, release) (settle_waiting-Settled _ p.future x (pop-Settled r i reason s))
  ]

  remember_all-Settled :
      (r : JsonRpcRequestRegistry) (l : List (JsonRpcId × PendingJsonRpcRequest))
      (reason : FinalizedRequestStatus)
      → Settled r
      → Settled (remember_all r l reason)
  unfolding remember_all remember_finalized_request
  remember_all-Settled r [] reason s = s
  remember_all-Settled r ((i, p) ∷ l) reason s =
      remember_all-Settled (remember_finalized_request r p.request_id p.method reason) l reason s

  pub fail_waiters-Settled :
      (r : JsonRpcRequestRegistry) (l : List (JsonRpcId × PendingJsonRpcRequest))
      (exc : RpcException)
      → Settled r
      → Settled (fail_waiters r l exc)
  unfolding fail_waiters
  fail_waiters-Settled r [] exc s = s
  fail_waiters-Settled r ((i, p) ∷ l) exc s =
      fail_waiters-Settled (settle_waiting r p.future (FutureState.exception exc)) l exc
        (settle_waiting-Settled r p.future (FutureState.exception exc) s)

  Step-Settled : {r t : JsonRpcRequestRegistry} → Step r t → Settled r → Settled t
  unfolding register_request resolve_response cancel_request fail_request fail_all cancel_waiter
  Step-Settled (registered r method i) s =
      admit-Settled (allocate r i).0 method (allocate r i).1 (allocate-Settled r i s)
  Step-Settled (resolved r response) s =
      deliver-Settled _ response _
        (pop-Settled r (response_id response) FinalizedRequestStatus.completed s)
  Step-Settled (cancelled r i reason) s = release-Settled r i reason FutureState.cancelled s
  Step-Settled (failed r i exc reason) s = release-Settled r i reason (FutureState.exception exc) s
  Step-Settled (all_failed r exc reason) s =
      fail_waiters-Settled _ r.pending_requests exc
        (remember_all-Settled (record r { pending_requests = [] }) r.pending_requests reason s)
  Step-Settled (waiter_cancelled r g) s = settle_waiting-Settled r g FutureState.cancelled s
  Step-Settled (observed r i) s = observe-Settled r i s

-- Once a future has a result, an exception or a cancellation, no later sequence of calls changes
-- it: duplicate and late responses, cancellations and failures leave it as it is.
pub settled_forever :
    {r t : JsonRpcRequestRegistry} (h : ℕ) (f : FutureState)
    → Reach r t
    → is_done f ≡ true
    → future_state r h ≡ some f
    → future_state t h ≡ some f
settled_forever h f here done s = s
settled_forever h f (next w st) done s = Step-Settled h f done st (settled_forever h f w done s)
