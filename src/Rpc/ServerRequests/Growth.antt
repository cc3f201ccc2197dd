-- ===== src/Rpc/ServerRequests/Growth.antt =====
-- src/codex_agent_sdk/rpc/router.py: what each operation of the router adds to the answers for an id.
use codex_python_sdk_unoffic.Common.{
  ℕ, ℤ, String, true, Option, List, [], ◌∷◌, ◌≡◌, refl, ◌∙◌, arith, inl, inr, Bool-cases,
  Option-cases, or_else, if◌then◌else◌, ◌==◌, string_eq,
}
use codex_python_sdk_unoffic.Common.Dict
use codex_python_sdk_unoffic.Common.Dict.{
  Dict, IsKeyed, get-put, put-IsKeyed, get-remove, remove-IsKeyed,
}
use codex_python_sdk_unoffic.Json.{Json}
use codex_python_sdk_unoffic.Rpc.Envelope.{
  JsonRpcId, id_eq, id_beq, JsonRpcRequest, JsonRpcNotification,
}
use codex_python_sdk_unoffic.Rpc.Requests.{
  RpcException, rpc, Outcome, returned, raised, JsonRpcResponse,
}
use codex_python_sdk_unoffic.Rpc.ServerRequests.{
  UnhandledPolicy, queue, reject, extract_resolved_request_id, close_one, handle_by,
  ServerRequestRouter, HandlerOutcome, result, not_handled, raises, task_cancelled,
  register_request, send_response, respond, reject_request, publish_to, publish_each,
  publish_request, handle_unhandled_request, find_handler, dispatch_registered, after_register,
  route_request, handle_handler_exception, finish_handler, resolve_request,
  observe_resolution_notification, close_each, close,
}
use codex_python_sdk_unoffic.Rpc.ServerRequests.Budget.{
  budget, Grows, send-budget, send-IsKeyed, Grows-trans, Grows-same, register-Grows,
  publish_to-same,
}

module _ (sender : JsonRpcResponse → Option RpcException) (i : JsonRpcId) where
  publish_each-same :
      (r : ServerRequestRouter) (q : JsonRpcRequest) (ids : List ℕ)
      → ((publish_each sender r q ids).pending_requests ≡ r.pending_requests)
        × ((publish_each sender r q ids).sent ≡ r.sent)
  unfolding publish_each
  publish_each-same r q [] = (refl, refl)
  publish_each-same r q (j ∷ ids) =
      let here = publish_to-same i sender r q j in
      let later = publish_each-same (publish_to sender r q j) q ids in
      (later.0 ∙ here.0, later.1 ∙ here.1)

  publish-Grows :
      (r : ServerRequestRouter) (q : JsonRpcRequest) → Grows i 0 r (publish_request sender r q)
  unfolding publish_request
  publish-Grows r q = elim (Bool-cases r.closed) [
    | inl c ↦ Grows-same i r _ (ground arith) (ground arith)
    | inr o ↦
        let same = publish_each-same r q r.registered in
        Grows-same i r _ (ground arith) (ground arith)
  ]

  send-Grows :
      (r : ServerRequestRouter) (x : JsonRpcResponse) → Grows i 0 r (send_response sender r x).0
  send-Grows r x h = (send-IsKeyed sender r x h, omega (arith, send-budget sender i r x))

  pub respond-Grows :
      (r : ServerRequestRouter) (j : JsonRpcId) (v : Json) → Grows i 0 r (respond sender r j v).0
  unfolding respond
  respond-Grows r j v = send-Grows r _

  pub reject-Grows :
      (r : ServerRequestRouter) (j : JsonRpcId) (code : ℤ) (m : String) (v : Json)
      → Grows i 0 r (reject_request sender r j code m v).0
  unfolding reject_request
  reject-Grows r j code m v = send-Grows r _

  handle_by-Grows :
      (policy : UnhandledPolicy) (r : ServerRequestRouter) (q : JsonRpcRequest)
      → Grows i 0 r (handle_by sender policy r q).0
  unfolding handle_by reject_request
  handle_by-Grows queue r q = publish-Grows r q
  handle_by-Grows reject r q = send-Grows r _

  handle_unhandled-Grows :
      (r : ServerRequestRouter) (q : JsonRpcRequest)
      → Grows i 0 r (handle_unhandled_request sender r q).0
  unfolding handle_unhandled_request
  handle_unhandled-Grows r q = handle_by-Grows r.unhandled_policy r q

  dispatch-Grows :
      (r : ServerRequestRouter) (q : JsonRpcRequest)
      → Grows i 0 r (dispatch_registered sender r q).0
  unfolding dispatch_registered
  dispatch-Grows r q = elim (Option-cases (find_handler sender r q)) [
    | inl miss ↦ rw (miss, dispatch_registered) (handle_unhandled-Grows r q)
    | inr (h, hit) ↦ rw (hit, dispatch_registered) (Grows-same i r _ refl refl)
  ]

  after_register-Grows :
      (s : ServerRequestRouter) (o : Outcome (Unit {0})) (q : JsonRpcRequest)
      → Grows i 0 s (after_register sender (s, o) q).0
  unfolding after_register
  after_register-Grows s (returned _) q = dispatch-Grows s q
  after_register-Grows s (raised e) q = Grows-same i s s refl refl

  pub route-Grows :
      (r : ServerRequestRouter) (q : JsonRpcRequest)
      → Grows i (if id_beq q.id i then 1 else 0) r (route_request sender r q).0
  unfolding route_request
  route-Grows r q h =
      let both =
        Grows-trans i _ 0 r (register_request r q).0 _ (register-Grows i r q)
          (after_register-Grows (register_request r q).0 (register_request r q).1 q) h in
      (both.0, omega (arith, both.1))

  pub finish-Grows :
      (r : ServerRequestRouter) (q : JsonRpcRequest) (o : HandlerOutcome)
      → Grows i 0 r (finish_handler sender r q o).0
  unfolding finish_handler respond reject_request handle_handler_exception
  finish-Grows r q (result v) = send-Grows r _
  finish-Grows r q not_handled = handle_unhandled-Grows r q
  finish-Grows r q (raises (rpc e)) = send-Grows r _
  finish-Grows r q (raises e) = send-Grows r _
  finish-Grows r q task_cancelled = Grows-same i r r refl refl

  pub resolve-Grows :
      (r : ServerRequestRouter) (j : JsonRpcId) → Grows i 0 r (resolve_request r j).0
  unfolding resolve_request budget
  resolve-Grows r j h =
      (remove-IsKeyed j r.pending_requests h, ground (arith, get-remove j i r.pending_requests h))

  pub observe-Grows :
      (r : ServerRequestRouter) (n : JsonRpcNotification)
      → Grows i 0 r (observe_resolution_notification r n).0
  unfolding observe_resolution_notification
  observe-Grows r n = elim (Bool-cases (n.method == "serverRequest/resolved")) [
    | inr other ↦ rw other (Grows-same i r r refl refl)
    | inl named ↦ elim (Bool-cases n.params_present) [
      | inr absent ↦ simp (named, absent) (Grows-same i r r refl refl)
      | inl present ↦ elim (Option-cases (extract_resolved_request_id n.params)) [
        | inl miss ↦ simp (named, present, miss) (Grows-same i r r refl refl)
        | inr (j, hit) ↦ simp (named, present, hit) (resolve-Grows r j)
      ]
    ]
  ]

  close_one-same :
      (r : ServerRequestRouter) (e : Option RpcException) (j : ℕ)
      → ((close_one r e j).pending_requests ≡ r.pending_requests)
        × ((close_one r e j).sent ≡ r.sent)
  unfolding close_one
  close_one-same r e j = ground arith

  close_each-same :
      (r : ServerRequestRouter) (e : Option RpcException) (ids : List ℕ)
      → ((close_each r e ids).pending_requests ≡ r.pending_requests)
        × ((close_each r e ids).sent ≡ r.sent)
  unfolding close_each
  close_each-same r e [] = (refl, refl)
  close_each-same r e (j ∷ ids) =
      let here = close_one-same r e j in
      let later = close_each-same (close_one r e j) e ids in (later.0 ∙ here.0, later.1 ∙ here.1)

  pub close-Grows : (r : ServerRequestRouter) (e : Option RpcException) → Grows i 0 r (close r e)
  unfolding close budget Dict.get
  close-Grows r e h =
      let same =
        close_each-same
          (record r {
            closed = true;
            terminal_error = or_else r.terminal_error e;
            pending_requests = [];
            handler_tasks = [];
          })
          e r.registered in
      (rw same.0 tt, rw (same.0, same.1) (omega arith))
