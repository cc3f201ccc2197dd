-- ===== src/Rpc/Requests/Runs.antt =====
-- Every operation of the request registry keeps its invariant, and so does every sequence of
-- operations, by whatever tasks.
use codex_python_sdk_unoffic.Common.{
  ℕ, ℤ, String, true, Option, none, some, List, [], ◌∷◌, ◌≡◌, refl, sym, ◌∙◌, arith, inl, inr,
  Bool-cases, Option-cases, int_leb, All, ltb,
}
use codex_python_sdk_unoffic.Common.Dict
use codex_python_sdk_unoffic.Common.Dict.{Dict, All-entries}
use codex_python_sdk_unoffic.Rpc.Envelope.{JsonRpcId, id_eq}
use codex_python_sdk_unoffic.Rpc.Requests.{
  init, empty, observe, JsonRpcResponse, response_id, RpcException, FinalizedRequestStatus,
  FutureState, PendingJsonRpcRequest, JsonRpcRequestRegistry, future_done, settle_waiting,
  settlement, register_request, remember_finalized_request, pop_pending_request, deliver,
  resolve_response, release, cancel_request, fail_request, remember_all, fail_waiters, fail_all,
  cancel_waiter,
}
use codex_python_sdk_unoffic.Rpc.Requests.Invariant.{
  IsValid, observe-IsValid, register_request-IsValid,
}
use codex_python_sdk_unoffic.Rpc.Requests.Kept.{
  empty-IsValid, remember-IsValid, pop_pending_request-IsValid, settle-IsValid,
  settle_waiting-IsValid, clear-IsValid,
}

deliver-IsValid :
    (r : JsonRpcRequestRegistry) (response : JsonRpcResponse) (p : Option PendingJsonRpcRequest)
    → IsValid r
    → IsValid (deliver r response p).0
unfolding deliver
deliver-IsValid r response none v = v
deliver-IsValid r response (some p) v = elim (Bool-cases (future_done r p.future)) [
  | inl done ↦ rw done v
  | inr waits ↦ rw waits (settle-IsValid r p.future (settlement response p.method) v)
]

pub resolve_response-IsValid :
    (r : JsonRpcRequestRegistry) (response : JsonRpcResponse)
    → IsValid r
    → IsValid (resolve_response r response).0
unfolding resolve_response
resolve_response-IsValid r response v =
    deliver-IsValid _ response _
      (pop_pending_request-IsValid r (response_id response) FinalizedRequestStatus.completed v)

release-IsValid :
    (r : JsonRpcRequestRegistry) (i : JsonRpcId) (reason : FinalizedRequestStatus) (f : FutureState)
    → IsValid r
    → IsValid (release r i reason f).0
unfolding release
release-IsValid r i reason f v = elim (Option-cases (pop_pending_request r i reason).1) [
  | inl miss ↦ rw (miss, release) (pop_pending_request-IsValid r i reason v)
  | inr (p, hit) ↦
      rw (hit, release)
        (settle_waiting-IsValid _ p.future f (pop_pending_request-IsValid r i reason v))
]

-- the entries that `fail_all` moves to the history
abbrev IsPast : JsonRpcRequestRegistry → JsonRpcId × PendingJsonRpcRequest → Type 0
IsPast r e = (n : ℤ) → e.1.request_id ≡ JsonRpcId.int n → int_leb n r.last_request_id ≡ true

remember_all-IsValid :
    (r : JsonRpcRequestRegistry) (l : List (JsonRpcId × PendingJsonRpcRequest))
    (reason : FinalizedRequestStatus)
    → IsValid r
    → r.pending_requests ≡ []
    → All (IsPast r) l
    → IsValid (remember_all r l reason)
unfolding remember_all remember_finalized_request Dict.get
remember_all-IsValid r [] reason v e h = v
remember_all-IsValid r ((i, p) ∷ l) reason v e h =
    remember_all-IsValid (remember_finalized_request r p.request_id p.method reason) l reason
      (remember-IsValid r p.request_id p.method reason v (rw e refl) h.0) e h.1

fail_waiters-IsValid :
    (r : JsonRpcRequestRegistry) (l : List (JsonRpcId × PendingJsonRpcRequest)) (exc : RpcException)
    → IsValid r
    → IsValid (fail_waiters r l exc)
unfolding fail_waiters
fail_waiters-IsValid r [] exc v = v
fail_waiters-IsValid r ((i, p) ∷ l) exc v =
    fail_waiters-IsValid (settle_waiting r p.future (FutureState.exception exc)) l exc
      (settle_waiting-IsValid r p.future (FutureState.exception exc) v)

pub fail_all-IsValid :
    (r : JsonRpcRequestRegistry) (exc : RpcException) (reason : FinalizedRequestStatus)
    → IsValid r
    → IsValid (fail_all r exc reason)
unfolding fail_all
fail_all-IsValid r exc reason v = fail_waiters-IsValid _ r.pending_requests exc (
    remember_all-IsValid (record r { pending_requests = [] }) r.pending_requests reason
      (clear-IsValid r v) refl past)
  where
    past : All (IsPast r) r.pending_requests
    past =
        All-entries (λ i p. IsPast r (i, p)) r.pending_requests v.pending_keyed
          (λ i p e n same. v.past_pending n p (rw (sym (v.own_id i p e) ∙ same) at e))

-- One call on the registry, or one task that stops awaiting its future.
pub data Step : JsonRpcRequestRegistry → JsonRpcRequestRegistry → Type 0 where
  registered :
      (r : JsonRpcRequestRegistry) (method : String) (i : JsonRpcId)
      → Step r (register_request r method i).0
  resolved :
      (r : JsonRpcRequestRegistry) (response : JsonRpcResponse)
      → Step r (resolve_response r response).0
  cancelled :
      (r : JsonRpcRequestRegistry) (i : JsonRpcId) (reason : FinalizedRequestStatus)
      → Step r (cancel_request r i reason).0
  failed :
      (r : JsonRpcRequestRegistry) (i : JsonRpcId) (exc : RpcException)
      (reason : FinalizedRequestStatus)
      → Step r (fail_request r i exc reason).0
  all_failed :
      (r : JsonRpcRequestRegistry) (exc : RpcException) (reason : FinalizedRequestStatus)
      → Step r (fail_all r exc reason)
  waiter_cancelled : (r : JsonRpcRequestRegistry) (h : ℕ) → Step r (cancel_waiter r h)
  observed : (r : JsonRpcRequestRegistry) (i : JsonRpcId) → Step r (observe r i)

pub data Reach (r : JsonRpcRequestRegistry) : JsonRpcRequestRegistry → Type 0 where
  here : Reach r r
  next : {s t : JsonRpcRequestRegistry} → Reach r s → Step s t → Reach r t

Step-IsValid : {r s : JsonRpcRequestRegistry} → Step r s → IsValid r → IsValid s
unfolding cancel_request fail_request cancel_waiter
Step-IsValid (registered r method i) v = register_request-IsValid r method i v
Step-IsValid (resolved r response) v = resolve_response-IsValid r response v
Step-IsValid (cancelled r i reason) v = release-IsValid r i reason FutureState.cancelled v
Step-IsValid (failed r i exc reason) v = release-IsValid r i reason (FutureState.exception exc) v
Step-IsValid (all_failed r exc reason) v = fail_all-IsValid r exc reason v
Step-IsValid (waiter_cancelled r h) v = settle_waiting-IsValid r h FutureState.cancelled v
Step-IsValid (observed r i) v = observe-IsValid r i v

init-IsValid :
    (start : ℤ) (limit : ℕ) (r : JsonRpcRequestRegistry) → init start limit ≡ some r → IsValid r
unfolding init
init-IsValid start limit r h = elim (Bool-cases (ltb 0 limit)) [
  | inl positive ↦
      let e : empty start limit ≡ r = ground arith in
      rw (← e) (empty-IsValid start limit (ground arith))
  | inr zero_limit ↦ absurd (ground arith)
]

pub Reach-IsValid_from : {r s : JsonRpcRequestRegistry} → Reach r s → IsValid r → IsValid s
Reach-IsValid_from here v = v
Reach-IsValid_from (next w st) v = Step-IsValid st (Reach-IsValid_from w v)

-- From a fresh registry, every sequence of calls reaches a valid registry: no id stands both for
-- a waiter and for a finished request, every waiter has a future of its own, the history is
-- within its limit, and every integer id in use is at most the allocator's position.
pub Reach-IsValid :
    (start : ℤ) (limit : ℕ) (r s : JsonRpcRequestRegistry)
    → init start limit ≡ some r
    → Reach r s
    → IsValid s
Reach-IsValid start limit r s h w = Reach-IsValid_from w (init-IsValid start limit r h)
