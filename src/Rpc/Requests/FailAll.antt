-- ===== src/Rpc/Requests/FailAll.antt =====
-- What `fail_all` does to the waiters.
use codex_python_sdk_unoffic.Common.{
  ℕ, some, [], ◌∷◌, ◌≡◌, ◌≢◌, refl, ◌∙◌, arith, inl, inr, Bool-cases, get_elem?-set,
  lt-length_of_some, nat_beq_iff, nat_beq,
}
use codex_python_sdk_unoffic.Common.Dict
use codex_python_sdk_unoffic.Common.Dict.{get-put, get-remove}
use codex_python_sdk_unoffic.Rpc.Envelope.{JsonRpcId, id_eq}
use codex_python_sdk_unoffic.Rpc.Requests.{
  RpcException, FinalizedRequestStatus, FutureState, PendingJsonRpcRequest, JsonRpcRequestRegistry,
  future_state, settle_waiting, remember_finalized_request, fail_all, fail_waiters, remember_all,
}
use codex_python_sdk_unoffic.Rpc.Requests.Settlement.{fail_waiters-Settled}

settle_waiting_at :
    (r : JsonRpcRequestRegistry) (h : ℕ) (f : FutureState)
    → future_state r h ≡ some FutureState.waiting
    → future_state (settle_waiting r h f) h ≡ some f
unfolding settle_waiting
settle_waiting_at r h f w =
    ground
      (arith, get_elem?-set r.futures h h f, lt-length_of_some r.futures h FutureState.waiting w)

settle_waiting_other :
    (r : JsonRpcRequestRegistry) (g h : ℕ) (f : FutureState)
    → g ≢ h
    → future_state (settle_waiting r g f) h ≡ future_state r h
unfolding settle_waiting
settle_waiting_other r g h f other = ground (arith, get_elem?-set r.futures g h f, nat_beq_iff g h)

fail_waiters_listed :
    (r : JsonRpcRequestRegistry) (d : Dict.Dict JsonRpcId PendingJsonRpcRequest)
    (exc : RpcException) (i : JsonRpcId) (p : PendingJsonRpcRequest)
    → Dict.get i d ≡ some p
    → future_state r p.future ≡ some FutureState.waiting
    → future_state (fail_waiters r d exc) p.future ≡ some (FutureState.exception exc)
unfolding fail_waiters Dict.get
fail_waiters_listed r [] exc i p e w = cc
fail_waiters_listed r ((j, q) ∷ d) exc i p e w = elim (Bool-cases (nat_beq q.future p.future)) [
  | inl same ↦ fail_waiters-Settled p.future (FutureState.exception exc) refl _ d exc (
      rw ((nat_beq_iff q.future p.future).0 same)
        (settle_waiting_at r p.future (FutureState.exception exc) w))
  | inr other ↦
      fail_waiters_listed (settle_waiting r q.future (FutureState.exception exc)) d exc i p
        (ground arith)
        (settle_waiting_other r q.future p.future (FutureState.exception exc) (ground arith) ∙ w)
]

remember_all-futures :
    (r : JsonRpcRequestRegistry) (d : Dict.Dict JsonRpcId PendingJsonRpcRequest)
    (reason : FinalizedRequestStatus)
    → ((remember_all r d reason).futures ≡ r.futures)
      × ((remember_all r d reason).pending_requests ≡ r.pending_requests)
unfolding remember_all remember_finalized_request
remember_all-futures r [] reason = (refl, refl)
remember_all-futures r ((i, p) ∷ d) reason =
    remember_all-futures (remember_finalized_request r p.request_id p.method reason) d reason

fail_waiters-pending :
    (r : JsonRpcRequestRegistry) (d : Dict.Dict JsonRpcId PendingJsonRpcRequest)
    (exc : RpcException)
    → (fail_waiters r d exc).pending_requests ≡ r.pending_requests
unfolding fail_waiters settle_waiting
fail_waiters-pending r [] exc = refl
fail_waiters-pending r ((i, p) ∷ d) exc =
    fail_waiters-pending (settle_waiting r p.future (FutureState.exception exc)) d exc
    ∙ ground arith

-- `fail_all` leaves no waiter on the table, and fails with its exception each waiter's future that
-- was still waiting.
pub fail_all_lem :
    (r : JsonRpcRequestRegistry) (exc : RpcException) (reason : FinalizedRequestStatus)
    → ((fail_all r exc reason).pending_requests ≡ [])
      × ((i : JsonRpcId) (p : PendingJsonRpcRequest)
          → Dict.get i r.pending_requests ≡ some p
          → future_state r p.future ≡ some FutureState.waiting
          → future_state (fail_all r exc reason) p.future ≡ some (FutureState.exception exc))
unfolding fail_all
fail_all_lem r exc reason = (
  fail_waiters-pending _ r.pending_requests exc
      ∙ (remember_all-futures (record r { pending_requests = [] }) r.pending_requests reason).1,
  (λ i p e w. fail_waiters_listed _ r.pending_requests exc i p e (
      rw (remember_all-futures (record r { pending_requests = [] }) r.pending_requests reason).0
        w)),
)
