-- ===== src/Rpc/Connection/Routers.antt =====
-- src/codex_agent_sdk/rpc/router.py: what a closed registry, bus, router and dispatcher keep.
use codex_python_sdk_unoffic.Common.{
  ℕ, ℤ, String, Option, none, List, [], ◌∷◌, ◌≡◌, refl, ◌∙◌, arith,
}
use codex_python_sdk_unoffic.Common.Dict
use codex_python_sdk_unoffic.Json.{Json}
use codex_python_sdk_unoffic.Rpc.Envelope.{JsonRpcId, JsonRpcRequest, JsonRpcNotification, id_eq}
use codex_python_sdk_unoffic.Rpc.Requests.{
  RpcException, rpc, FinalizedRequestStatus, FutureState, JsonRpcRequestRegistry, JsonRpcResponse,
  response_id, returned, raised, resolve_response, pop_pending_request, release, observe,
}
use codex_python_sdk_unoffic.Rpc.Requests.Correlation.{resolve_response_miss}
use codex_python_sdk_unoffic.Rpc.ServerRequests.{
  UnhandledPolicy, ServerRequestRouter, register_request, send_response, respond, reject_request,
  publish_to, publish_each, publish_request, queue, reject, handle_by, handle_unhandled_request,
  dispatch_registered, after_register, route_request, handle_handler_exception, HandlerOutcome,
  finish_handler, result, not_handled, raises, task_cancelled, resolve_request,
  observe_resolution_notification, Step,
}

-- a registry without waiters
abbrev pub IsIdle : JsonRpcRequestRegistry → Type 0
IsIdle r = r.pending_requests ≡ []

idle_none :
    (r : JsonRpcRequestRegistry) (i : JsonRpcId) → IsIdle r → Dict.get i r.pending_requests ≡ none
unfolding Dict.get
idle_none r i h = rw h refl

pub resolve_response-IsIdle :
    (r : JsonRpcRequestRegistry) (x : JsonRpcResponse) → IsIdle r → IsIdle (resolve_response r x).0
resolve_response-IsIdle r x h = rw (resolve_response_miss r x (idle_none r (response_id x) h)) h

pub release-IsIdle :
    (r : JsonRpcRequestRegistry) (i : JsonRpcId) (reason : FinalizedRequestStatus) (f : FutureState)
    → IsIdle r
    → IsIdle (release r i reason f).0
unfolding release pop_pending_request
release-IsIdle r i reason f h = ground (arith, h, idle_none r i h)

pub observe-IsIdle : (r : JsonRpcRequestRegistry) (i : JsonRpcId) → IsIdle r → IsIdle (observe r i)
unfolding observe
observe-IsIdle r i h = ground (arith, h)

-- a router that an operation leaves as closed as it was
abbrev pub Same : ServerRequestRouter → ServerRequestRouter → Type 0
Same r r' = r'.closed ≡ r.closed

module _ (sender : JsonRpcResponse → Option RpcException) where
  send-Same : (r : ServerRequestRouter) (x : JsonRpcResponse) → Same r (send_response sender r x).0
  unfolding send_response
  send-Same r x = ground arith

  pub respond-Same :
      (r : ServerRequestRouter) (i : JsonRpcId) (v : Json) → Same r (respond sender r i v).0
  unfolding respond
  respond-Same r i v = send-Same r _

  pub reject-Same :
      (r : ServerRequestRouter) (i : JsonRpcId) (c : ℤ) (m : String) (v : Json)
      → Same r (reject_request sender r i c m v).0
  unfolding reject_request
  reject-Same r i c m v = send-Same r _

  publish_to-Same :
      (r : ServerRequestRouter) (q : JsonRpcRequest) (i : ℕ) → Same r (publish_to sender r q i)
  unfolding publish_to
  publish_to-Same r q i = ground arith

  publish_each-Same :
      (r : ServerRequestRouter) (q : JsonRpcRequest) (ids : List ℕ)
      → Same r (publish_each sender r q ids)
  unfolding publish_each
  publish_each-Same r q [] = refl
  publish_each-Same r q (i ∷ ids) =
      publish_each-Same (publish_to sender r q i) q ids ∙ publish_to-Same r q i

  publish-Same :
      (r : ServerRequestRouter) (q : JsonRpcRequest) → Same r (publish_request sender r q)
  unfolding publish_request
  publish-Same r q = ground (arith, publish_each-Same r q r.registered)

  handle_by-Same :
      (p : UnhandledPolicy) (r : ServerRequestRouter) (q : JsonRpcRequest)
      → Same r (handle_by sender p r q).0
  unfolding handle_by
  handle_by-Same queue r q = publish-Same r q
  handle_by-Same reject r q = reject-Same r q.id _ _ _

  unhandled-Same :
      (r : ServerRequestRouter) (q : JsonRpcRequest)
      → Same r (handle_unhandled_request sender r q).0
  unfolding handle_unhandled_request
  unhandled-Same r q = handle_by-Same r.unhandled_policy r q

  dispatch-Same :
      (r : ServerRequestRouter) (q : JsonRpcRequest) → Same r (dispatch_registered sender r q).0
  unfolding dispatch_registered
  dispatch-Same r q = ground (arith, unhandled-Same r q)

  after_register-Same :
      (r : ServerRequestRouter) (s : Step) (q : JsonRpcRequest)
      → Same r s.0
      → Same r (after_register sender s q).0
  unfolding after_register
  after_register-Same r (r', returned u) q h = dispatch-Same r' q ∙ h
  after_register-Same r (r', raised e) q h = h

  pub route-Same :
      (r : ServerRequestRouter) (q : JsonRpcRequest) → Same r (route_request sender r q).0
  unfolding route_request register_request
  route-Same r q = after_register-Same r (register_request r q) q (ground arith)

  exception-Same :
      (r : ServerRequestRouter) (q : JsonRpcRequest) (e : RpcException)
      → Same r (handle_handler_exception sender r q e).0
  unfolding handle_handler_exception
  exception-Same r q (rpc e) = reject-Same r q.id e.code e.rpc_message e.data_value
  exception-Same r q _ = reject-Same r q.id _ _ _

  pub finish-Same :
      (r : ServerRequestRouter) (q : JsonRpcRequest) (o : HandlerOutcome)
      → Same r (finish_handler sender r q o).0
  unfolding finish_handler
  finish-Same r q (result v) = respond-Same r q.id v
  finish-Same r q not_handled = unhandled-Same r q
  finish-Same r q (raises e) = exception-Same r q e
  finish-Same r q task_cancelled = refl

pub observe_resolution-Same :
    (r : ServerRequestRouter) (n : JsonRpcNotification)
    → Same r (observe_resolution_notification r n).0
unfolding observe_resolution_notification resolve_request
observe_resolution-Same r n = ground arith
