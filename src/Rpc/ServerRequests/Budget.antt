-- ===== src/Rpc/ServerRequests/Budget.antt =====
-- src/codex_agent_sdk/rpc/router.py: the answers for an id that were sent or may still be.
use codex_python_sdk_unoffic.Common.{
  ℕ, ◌+◌, ◌≤◌, String, true, false, Option, none, some, List, [], ◌∷◌, ◌++◌, ◌≡◌, refl, arith, inl,
  inr, Option-cases, if◌then◌else◌, string_eq,
}
use codex_python_sdk_unoffic.Common.Dict
use codex_python_sdk_unoffic.Common.Dict.{
  Dict, IsKeyed, get-put, put-IsKeyed, get-remove, remove-IsKeyed,
}
use codex_python_sdk_unoffic.Rpc.Envelope.{JsonRpcId, id_eq, id_beq, id_beq_iff, JsonRpcRequest}
use codex_python_sdk_unoffic.Rpc.Requests.{RpcException, JsonRpcResponse}
use codex_python_sdk_unoffic.Rpc.Filter.{SubscriptionFilter}
use codex_python_sdk_unoffic.Rpc.ServerRequests.{
  ServerRequestRouter, PendingServerRequest, response_id, register_request, send_response,
  publish_to, subscribe, register_handler,
}
use codex_python_sdk_unoffic.Rpc.ServerRequests.Subscriptions.{
  unsubscribe, close_subscription, take_next,
}

-- how many of the envelopes answer the id
unfoldable pub count : JsonRpcId → List JsonRpcResponse → ℕ
count i [] = 0
count i (x ∷ xs) = (if id_beq (response_id x) i then 1 else 0) + count i xs

-- one more answer for the id may still be sent
abbrev pub unanswered : Option PendingServerRequest → ℕ
unanswered none = 0
unanswered (some p) = if p.responded then 0 else 1

-- The answers for the id that were sent, and the one that may still be.
unfoldable pub budget : JsonRpcId → ServerRequestRouter → ℕ
budget i r = count i r.sent + unanswered (Dict.get i r.pending_requests)

count-append :
    (i : JsonRpcId) (xs : List JsonRpcResponse) (x : JsonRpcResponse)
    → count i (xs ++ x ∷ []) ≡ count i xs + (if id_beq (response_id x) i then 1 else 0)
unfolding count
count-append i [] x = omega arith
count-append i (y ∷ xs) x = omega (arith, count-append i xs x)

module _ (sender : JsonRpcResponse → Option RpcException) (i : JsonRpcId) where
  pub send-budget :
      (r : ServerRequestRouter) (x : JsonRpcResponse)
      → budget i (send_response sender r x).0 ≤ budget i r
  unfolding send_response budget
  send-budget r x = elim (Option-cases (Dict.get (response_id x) r.pending_requests)) [
    | inl miss ↦ ground arith
    | inr (p, hit) ↦ ground (
      arith,
      count-append i r.sent x,
      get-put (response_id x) i (record p { responded = true }) r.pending_requests,
      id_beq_iff (response_id x) i,
    )
  ]

pub send-IsKeyed :
    (sender : JsonRpcResponse → Option RpcException) (r : ServerRequestRouter) (x : JsonRpcResponse)
    → IsKeyed r.pending_requests
    → IsKeyed (send_response sender r x).0.pending_requests
unfolding send_response
send-IsKeyed sender r x h = elim (Option-cases (Dict.get (response_id x) r.pending_requests)) [
  | inl miss ↦ ground arith
  | inr (p, hit) ↦
      ground
        (arith, put-IsKeyed (response_id x) (record p { responded = true }) r.pending_requests h)
]

-- From `r` to `s` the answers for the id, sent or still possible, grow by at most `k`.
abbrev pub Grows : JsonRpcId → ℕ → ServerRequestRouter → ServerRequestRouter → Type 0
Grows i k r s =
    IsKeyed r.pending_requests → IsKeyed s.pending_requests × (budget i s ≤ budget i r + k)

module _ (i : JsonRpcId) where
  pub step_zero :
      (k : ℕ) (r s t : ServerRequestRouter) → Grows i k r s → Grows i 0 s t → Grows i k r t
  step_zero k r s t f g h = ((g (f h).0).0, omega (arith, (f h).1, (g (f h).0).1))

  pub Grows-trans :
      (j k : ℕ) (r s t : ServerRequestRouter) → Grows i j r s → Grows i k s t → Grows i (j + k) r t
  Grows-trans j k r s t f g h = ((g (f h).0).0, omega (arith, (f h).1, (g (f h).0).1))

  -- what leaves the pending requests and the sent envelopes alone
  pub Grows-same :
      (r s : ServerRequestRouter)
      → s.pending_requests ≡ r.pending_requests
      → s.sent ≡ r.sent
      → Grows i 0 r s
  unfolding budget
  Grows-same r s p q h = (rw p h, rw (p, q) (omega arith))

  pub register-Grows :
      (r : ServerRequestRouter) (q : JsonRpcRequest)
      → Grows i (if id_beq q.id i then 1 else 0) r (register_request r q).0
  unfolding register_request budget
  register-Grows r q h = elim (Option-cases (Dict.get q.id r.pending_requests)) [
    | inl free ↦ (
      ground (arith, put-IsKeyed q.id new r.pending_requests h),
      ground (arith, get-put q.id i new r.pending_requests, id_beq_iff q.id i),
    )
    | inr (p, taken) ↦ (ground arith, ground arith)
  ]
    where
      new : PendingServerRequest
      new = record { request = q; responded = false }

  pub subscribe-Grows :
      (r : ServerRequestRouter) (f : SubscriptionFilter) → Grows i 0 r (subscribe r f).0
  unfolding subscribe
  subscribe-Grows r f = Grows-same r _ (ground arith) (ground arith)

  pub handler-Grows :
      (r : ServerRequestRouter) (m : String) (k : ℕ) → Grows i 0 r (register_handler r m k)
  unfolding register_handler
  handler-Grows r m k = Grows-same r _ refl refl

  pub publish_to-same :
      (sender : JsonRpcResponse → Option RpcException) (r : ServerRequestRouter)
      (q : JsonRpcRequest) (j : ℕ)
      → ((publish_to sender r q j).pending_requests ≡ r.pending_requests)
        × ((publish_to sender r q j).sent ≡ r.sent)
  unfolding publish_to
  publish_to-same sender r q j = ground arith

  pub unsubscribe-Grows : (r : ServerRequestRouter) (j : ℕ) → Grows i 0 r (close_subscription r j)
  unfolding close_subscription unsubscribe
  unsubscribe-Grows r j = Grows-same r _ (ground arith) (ground arith)

  pub take-Grows : (r : ServerRequestRouter) (j : ℕ) → Grows i 0 r (take_next r j)
  unfolding take_next
  take-Grows r j = Grows-same r _ (ground arith) (ground arith)
