-- ===== src/Rpc/ServerRequests/Answers.antt =====
-- What becomes of a request of the server: to whom it goes, and what is answered.
use codex_python_sdk_unoffic.Common.{
  ℕ, negsuc, true, false, Option, none, some, [], ◌∷◌, ◌++◌, ◌≡◌, refl, ap, arith, inl, inr,
  Option-cases, or_else, not, string_eq, some-injective,
}
use codex_python_sdk_unoffic.Common.Dict
use codex_python_sdk_unoffic.Common.Dict.{Dict, IsKeyed, get-put}
use codex_python_sdk_unoffic.Json.{Json, is_null}
use codex_python_sdk_unoffic.Rpc.Envelope.{id_eq, id_beq_iff, JsonRpcRequest}
use codex_python_sdk_unoffic.Rpc.Requests.{
  RpcException, rpc, duplicate_server_request_id, server_request_already_responded, Outcome,
  returned, raised, JsonRpcResponse, success, error,
}
use codex_python_sdk_unoffic.Rpc.ServerRequests.{
  ServerRequestRouter, PendingServerRequest, HandlerOutcome, result, raises, response_id, hand_over,
  sender_outcome, register_request, send_response, respond, reject_request,
  handle_unhandled_request, find_handler, dispatch_registered, after_register, route_request,
  drop_stale, dropping, handle_handler_exception, finish_handler,
}

module _ (sender : JsonRpcResponse → Option RpcException) where
  -- A response to a request that is pending and unanswered is handed to the sender, marks the
  -- request as answered, and ends as the sender does. A further response to the id is then refused
  -- as a second one, and nothing more is sent.
  pub send_response_once :
      (r : ServerRequestRouter) (x y : JsonRpcResponse) (p : PendingServerRequest)
      → r.has_sender ≡ true
      → Dict.get (response_id x) r.pending_requests ≡ some p
      → p.responded ≡ false
      → response_id y ≡ response_id x
      → (send_response sender r x ≡ (hand_over r x p, sender_outcome sender x))
        × (send_response sender (send_response sender r x).0 y ≡ (
          (send_response sender r x).0,
          raised (server_request_already_responded (response_id x) p.request.method),
        ))
  unfolding send_response
  send_response_once r x y p s e u same =
      let first : send_response sender r x ≡ (hand_over r x p, sender_outcome sender x) =
        ground arith in
      (
        first,
        rw (first, same)
            (ground (
              arith,
              get-put (response_id x) (response_id x) (record p { responded = true })
                  r.pending_requests,
              id_beq_iff (response_id x) (response_id x),
            )),
      )

  -- what a request that is accepted adds to the pending ones
  abbrev pub registered : ServerRequestRouter → JsonRpcRequest → ServerRequestRouter
  registered r q = record r {
    pending_requests = Dict.put q.id (record { request = q; responded = false }) r.pending_requests;
  }

  register_taken :
      (r : ServerRequestRouter) (q : JsonRpcRequest)
      → Dict.has q.id r.pending_requests ≡ true
      → register_request r q ≡ (r, raised (duplicate_server_request_id q.id q.method))
  unfolding register_request
  register_taken r q h = ground arith

  register_free :
      (r : ServerRequestRouter) (q : JsonRpcRequest)
      → Dict.has q.id r.pending_requests ≡ false
      → register_request r q ≡ (registered r q, returned tt)
  unfolding register_request
  register_free r q h = ground arith

  dispatch_hit :
      (r : ServerRequestRouter) (q : JsonRpcRequest) (h : ℕ)
      → find_handler sender r q ≡ some h
      → dispatch_registered sender r q ≡ (
        record r { handler_tasks = r.handler_tasks ++ (record { request = q; handler = h }) ∷ [] },
        returned tt,
      )
  unfolding dispatch_registered
  dispatch_hit r q h e = ground arith

  dispatch_miss :
      (r : ServerRequestRouter) (q : JsonRpcRequest)
      → find_handler sender r q ≡ none
      → dispatch_registered sender r q ≡ handle_unhandled_request sender r q
  unfolding dispatch_registered
  dispatch_miss r q e = ground arith

  -- A request of the server whose id is pending is refused as a duplicate, and changes nothing. Any
  -- other becomes pending, and goes to the handler of its method, or to the fallback handler if the
  -- method has none, or is treated as unhandled if there is no fallback.
  pub route_request_lem :
      (r : ServerRequestRouter) (q : JsonRpcRequest)
      → (Dict.has q.id r.pending_requests ≡ true
          → route_request sender r q ≡ (r, raised (duplicate_server_request_id q.id q.method)))
        × (Dict.has q.id r.pending_requests ≡ false
            → (h : ℕ) → or_else (Dict.get q.method r.handlers) r.fallback_handler ≡ some h
            → route_request sender r q ≡ (
              record (registered r q) {
                handler_tasks = r.handler_tasks ++ (record { request = q; handler = h }) ∷ [];
              },
              returned tt,
            ))
        × (Dict.has q.id r.pending_requests ≡ false
            → or_else (Dict.get q.method r.handlers) r.fallback_handler ≡ none
            → route_request sender r q ≡ handle_unhandled_request sender (registered r q) q)
  unfolding route_request after_register find_handler
  route_request_lem r q = (
    (λ taken. rw (register_taken r q taken) refl),
    (λ free h hit. rw (register_free r q free) (dispatch_hit (registered r q) q h hit)),
    (λ free miss. rw (register_free r q free) (dispatch_miss (registered r q) q miss)),
  )

  -- whatever the sender of an answer says, a stale answer is dropped
  abbrev pub answered :
      ServerRequestRouter
      → JsonRpcResponse
      → PendingServerRequest
      → ServerRequestRouter × Outcome (Unit {0})
  answered r x p = (hand_over r x p, drop_stale sender (sender_outcome sender x))

  -- the envelope that answers a handler's end, where the handler took the request
  abbrev pub reply : JsonRpcRequest → HandlerOutcome → Option JsonRpcResponse
  reply q (result v) = some (success (record { id = q.id; result = v }))
  reply q (raises (rpc e)) = some (
      error (record {
        id = q.id;
        error = record {
          code = e.code;
          message = e.rpc_message;
          data_value = e.data_value;
          data_present = not (is_null e.data_value);
        };
      }))
  reply q (raises _) = some (
      error (record {
        id = q.id;
        error = record {
          code = negsuc 32602;
          message = "client server-request handler failed";
          data_value = Json.null;
          data_present = false;
        };
      }))
  reply q _ = none

  send_unanswered :
      (r : ServerRequestRouter) (x : JsonRpcResponse) (p : PendingServerRequest)
      → r.has_sender ≡ true
      → Dict.get (response_id x) r.pending_requests ≡ some p
      → p.responded ≡ false
      → send_response sender r x ≡ (hand_over r x p, sender_outcome sender x)
  unfolding send_response
  send_unanswered r x p s e u = ground arith

  send_stale :
      (r : ServerRequestRouter) (x : JsonRpcResponse)
      → r.has_sender ≡ true
      → ((p : PendingServerRequest)
          → Dict.get (response_id x) r.pending_requests ≡ some p
          → p.responded ≡ true)
      → dropping sender (send_response sender r x) ≡ (r, returned tt)
  unfolding send_response drop_stale
  send_stale r x s h = elim (Option-cases (Dict.get (response_id x) r.pending_requests)) [
    | inl miss ↦ ground arith
    | inr (p, hit) ↦ ground (arith, h p hit)
  ]

  -- both cases, for any envelope under the request's id
  answer_lem :
      (r : ServerRequestRouter) (q : JsonRpcRequest) (x : JsonRpcResponse)
      → r.has_sender ≡ true
      → response_id x ≡ q.id
      → ((p : PendingServerRequest)
          → Dict.get q.id r.pending_requests ≡ some p
          → p.responded ≡ false
          → dropping sender (send_response sender r x) ≡ answered r x p)
        × (((p : PendingServerRequest)
              → Dict.get q.id r.pending_requests ≡ some p
              → p.responded ≡ true)
            → dropping sender (send_response sender r x) ≡ (r, returned tt))
  answer_lem r q x s same = (
    (λ p e u. ap (dropping sender) (send_unanswered r x p s (rw same e) u)),
    (λ h. send_stale r x s (λ p e. h p (rw same at e))),
  )

  -- When a handler ends with a result or an error while its request is pending and unanswered, the
  -- result, the error's own code, message and data, or the internal error -32603 is handed to the
  -- sender under the request's id, once. If the request was answered or resolved meanwhile, nothing
  -- is sent and nothing is raised.
  pub finish_handler_lem :
      (r : ServerRequestRouter) (q : JsonRpcRequest) (o : HandlerOutcome) (x : JsonRpcResponse)
      → r.has_sender ≡ true
      → reply q o ≡ some x
      → ((p : PendingServerRequest)
          → Dict.get q.id r.pending_requests ≡ some p
          → p.responded ≡ false
          → finish_handler sender r q o ≡ answered r x p)
        × (((p : PendingServerRequest)
              → Dict.get q.id r.pending_requests ≡ some p
              → p.responded ≡ true)
            → finish_handler sender r q o ≡ (r, returned tt))
  unfolding finish_handler respond reject_request handle_handler_exception
  finish_handler_lem r q (result v) x s e = rw (← some-injective _ x e) (answer_lem r q _ s refl)
  finish_handler_lem r q (raises (rpc err)) x s e =
      rw (← some-injective _ x e) (answer_lem r q _ s refl)
  finish_handler_lem r q (raises err) x s e = rw (← some-injective _ x e) (answer_lem r q _ s refl)
  finish_handler_lem r q _ x s e = absurd (ground arith)
