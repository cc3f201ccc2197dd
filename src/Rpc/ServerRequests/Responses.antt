-- ===== src/Rpc/ServerRequests/Responses.antt =====
-- The client answers each request of the server at most once.
use codex_python_sdk_unoffic.Common.{
  ℕ, ◌+◌, ◌≤◌, ℤ, String, Bool, Option, List, [], ◌∷◌, arith, if◌then◌else◌, string_eq,
}
use codex_python_sdk_unoffic.Common.Dict
use codex_python_sdk_unoffic.Common.Dict.{
  Dict, IsKeyed, get-put, put-IsKeyed, get-remove, remove-IsKeyed,
}
use codex_python_sdk_unoffic.Json.{Json}
use codex_python_sdk_unoffic.Rpc.Envelope.{
  JsonRpcId, id_eq, id_beq, JsonRpcRequest, JsonRpcNotification,
}
use codex_python_sdk_unoffic.Rpc.Requests.{RpcException, JsonRpcResponse}
use codex_python_sdk_unoffic.Rpc.Filter.{SubscriptionFilter}
use codex_python_sdk_unoffic.Rpc.ServerRequests.{
  UnhandledPolicy, new_router, ServerRequestRouter, HandlerOutcome, respond, reject_request,
  route_request, finish_handler, resolve_request, observe_resolution_notification, close, subscribe,
  register_handler,
}
use codex_python_sdk_unoffic.Rpc.ServerRequests.Subscriptions.{close_subscription, take_next}
use codex_python_sdk_unoffic.Rpc.ServerRequests.Budget.{
  count, budget, Grows, step_zero, Grows-trans, subscribe-Grows, handler-Grows, unsubscribe-Grows,
  take-Grows,
}
use codex_python_sdk_unoffic.Rpc.ServerRequests.Growth.{
  respond-Grows, reject-Grows, route-Grows, finish-Grows, resolve-Grows, observe-Grows, close-Grows,
}

-- One event at the router: a request of the server, the end of a handler, an answer by the
-- application, a resolution, or a change of its handlers and subscriptions. The list holds the
-- ids of the requests that came, the latest first.
pub data Run (sender : JsonRpcResponse → Option RpcException) (r : ServerRequestRouter)
    : List JsonRpcId → ServerRequestRouter → Type 0 where
  start : Run sender r [] r
  routed :
      {ids : List JsonRpcId} {s : ServerRequestRouter} (q : JsonRpcRequest)
      → Run sender r ids s
      → Run sender r (q.id ∷ ids) (route_request sender s q).0
  finished :
      {ids : List JsonRpcId} {s : ServerRequestRouter} (q : JsonRpcRequest) (o : HandlerOutcome)
      → Run sender r ids s
      → Run sender r ids (finish_handler sender s q o).0
  responded :
      {ids : List JsonRpcId} {s : ServerRequestRouter} (i : JsonRpcId) (v : Json)
      → Run sender r ids s
      → Run sender r ids (respond sender s i v).0
  rejected :
      {ids : List JsonRpcId} {s : ServerRequestRouter} (i : JsonRpcId) (code : ℤ) (m : String)
      (v : Json)
      → Run sender r ids s
      → Run sender r ids (reject_request sender s i code m v).0
  observed :
      {ids : List JsonRpcId} {s : ServerRequestRouter} (n : JsonRpcNotification)
      → Run sender r ids s
      → Run sender r ids (observe_resolution_notification s n).0
  resolved :
      {ids : List JsonRpcId} {s : ServerRequestRouter} (i : JsonRpcId)
      → Run sender r ids s
      → Run sender r ids (resolve_request s i).0
  closed :
      {ids : List JsonRpcId} {s : ServerRequestRouter} (e : Option RpcException)
      → Run sender r ids s
      → Run sender r ids (close s e)
  subscribed :
      {ids : List JsonRpcId} {s : ServerRequestRouter} (f : SubscriptionFilter)
      → Run sender r ids s
      → Run sender r ids (subscribe s f).0
  unsubscribed :
      {ids : List JsonRpcId} {s : ServerRequestRouter} (j : ℕ)
      → Run sender r ids s
      → Run sender r ids (close_subscription s j)
  taken :
      {ids : List JsonRpcId} {s : ServerRequestRouter} (j : ℕ)
      → Run sender r ids s
      → Run sender r ids (take_next s j)
  handled :
      {ids : List JsonRpcId} {s : ServerRequestRouter} (method : String) (h : ℕ)
      → Run sender r ids s
      → Run sender r ids (register_handler s method h)

pub count_ids : JsonRpcId → List JsonRpcId → ℕ
count_ids i [] = 0
count_ids i (j ∷ ids) = (if id_beq j i then 1 else 0) + count_ids i ids

Run-Grows :
    (sender : JsonRpcResponse → Option RpcException) (i : JsonRpcId) {r s : ServerRequestRouter}
    {ids : List JsonRpcId}
    → Run sender r ids s
    → Grows i (count_ids i ids) r s
unfolding count_ids
Run-Grows sender i start h = (h, omega arith)
Run-Grows sender i {r} (routed {ids} {s} q w) h =
    let both =
      Grows-trans i (count_ids i ids) _ r s _ (Run-Grows sender i w) (route-Grows sender i s q) h in
    (both.0, omega (arith, both.1))
Run-Grows sender i {r} (finished {ids} {s} q o w) h =
    step_zero i (count_ids i ids) r s _ (Run-Grows sender i w) (finish-Grows sender i s q o) h
Run-Grows sender i {r} (responded {ids} {s} j v w) h =
    step_zero i (count_ids i ids) r s _ (Run-Grows sender i w) (respond-Grows sender i s j v) h
Run-Grows sender i {r} (rejected {ids} {s} j code m v w) h =
    step_zero i (count_ids i ids) r s _ (Run-Grows sender i w) (reject-Grows sender i s j code m v)
      h
Run-Grows sender i {r} (observed {ids} {s} n w) h =
    step_zero i (count_ids i ids) r s _ (Run-Grows sender i w) (observe-Grows sender i s n) h
Run-Grows sender i {r} (resolved {ids} {s} j w) h =
    step_zero i (count_ids i ids) r s _ (Run-Grows sender i w) (resolve-Grows sender i s j) h
Run-Grows sender i {r} (closed {ids} {s} e w) h =
    step_zero i (count_ids i ids) r s _ (Run-Grows sender i w) (close-Grows sender i s e) h
Run-Grows sender i {r} (subscribed {ids} {s} f w) h =
    step_zero i (count_ids i ids) r s _ (Run-Grows sender i w) (subscribe-Grows i s f) h
Run-Grows sender i {r} (unsubscribed {ids} {s} j w) h =
    step_zero i (count_ids i ids) r s _ (Run-Grows sender i w) (unsubscribe-Grows i s j) h
Run-Grows sender i {r} (taken {ids} {s} j w) h =
    step_zero i (count_ids i ids) r s _ (Run-Grows sender i w) (take-Grows i s j) h
Run-Grows sender i {r} (handled {ids} {s} m k w) h =
    step_zero i (count_ids i ids) r s _ (Run-Grows sender i w) (handler-Grows i s m k) h

-- However handlers, the application, resolutions and closes interleave, the router never hands over
-- more responses for an id than the server has sent requests with it.
pub answers_at_most_requests :
    (sender : JsonRpcResponse → Option RpcException) (has_sender : Bool) (policy : UnhandledPolicy)
    (i : JsonRpcId) (ids : List JsonRpcId) (s : ServerRequestRouter)
    → Run sender (new_router has_sender policy) ids s
    → count i s.sent ≤ count_ids i ids
unfolding budget count Dict.get
answers_at_most_requests sender has_sender policy i ids s w =
    omega (arith, (Run-Grows sender i w tt).1)
