-- ===== src/Tests/ServerRequests.antt =====
-- The server-request router at work: an approval that a handler answers, and a second answer.
use codex_python_sdk_unoffic.Common.{
  ℕ, ◌≤◌, pos, true, false, Option, none, some, [], ◌∷◌, ◌++◌, ◌≡◌, refl, or_else, string_eq,
}
use codex_python_sdk_unoffic.Common.Dict
use codex_python_sdk_unoffic.Json.{Json}
use codex_python_sdk_unoffic.Rpc.Envelope.{JsonRpcId, id_eq, JsonRpcRequest}
use codex_python_sdk_unoffic.Rpc.Requests.{
  RpcException, returned, raised, JsonRpcResponse, success, duplicate_server_request_id,
  server_request_already_responded,
}
use codex_python_sdk_unoffic.Rpc.ServerRequests.{
  new_router, queue, ServerRequestRouter, PendingServerRequest, result, hand_over, sender_outcome,
  register_handler, route_request, finish_handler, handle_unhandled_request, register_request,
  after_register, dispatch_registered, find_handler, send_response,
}
use codex_python_sdk_unoffic.Rpc.ServerRequests.Responses.{
  start, routed, handled, finished, count_ids, answers_at_most_requests,
}
use codex_python_sdk_unoffic.Rpc.ServerRequests.Budget.{count}
use codex_python_sdk_unoffic.Rpc.ServerRequests.Answers.{
  answered, registered, send_response_once, route_request_lem, finish_handler_lem,
}

abbrev pub accepts : JsonRpcResponse → Option RpcException
accepts x = none

abbrev pub asked : JsonRpcRequest
asked = record {
  id = JsonRpcId.int (pos 5);
  method = "approve";
  params = Json.null;
  params_present = false;
}

abbrev open_request : PendingServerRequest
open_request = record { request = asked; responded = false }

abbrev fresh : ServerRequestRouter
fresh = record (new_router true queue) { handlers = ("approve", 0) ∷ [] }

abbrev pub waiting : ServerRequestRouter
waiting = record fresh {
  pending_requests = (JsonRpcId.int (pos 5), open_request) ∷ [];
  handler_tasks = (record { request = asked; handler = 0 }) ∷ [];
}

abbrev yes_answer : JsonRpcResponse
yes_answer = success (record { id = JsonRpcId.int (pos 5); result = Json.text "accept" })

abbrev no_answer : JsonRpcResponse
no_answer = success (record { id = JsonRpcId.int (pos 5); result = Json.text "decline" })

routes : route_request accepts fresh asked ≡ (waiting, returned tt)
unfolding route_request register_request after_register dispatch_registered find_handler Dict.get
    Dict.put
routes = refl

send_response_once_example :
    (send_response accepts waiting yes_answer
      ≡ (hand_over waiting yes_answer open_request, sender_outcome accepts yes_answer))
    × (send_response accepts (send_response accepts waiting yes_answer).0 no_answer ≡ (
      (send_response accepts waiting yes_answer).0,
      raised (server_request_already_responded (JsonRpcId.int (pos 5)) "approve"),
    ))
unfolding Dict.get
send_response_once_example =
    send_response_once accepts waiting yes_answer no_answer open_request refl refl refl refl

route_request_lem_example :
    (Dict.has (JsonRpcId.int (pos 5)) fresh.pending_requests ≡ true
      → route_request accepts fresh asked
        ≡ (fresh, raised (duplicate_server_request_id (JsonRpcId.int (pos 5)) "approve")))
    × (Dict.has (JsonRpcId.int (pos 5)) fresh.pending_requests ≡ false
        → (h : ℕ) → or_else (Dict.get "approve" fresh.handlers) fresh.fallback_handler ≡ some h
        → route_request accepts fresh asked ≡ (
          record (registered accepts fresh asked) {
            handler_tasks = [] ++ (record { request = asked; handler = h }) ∷ [];
          },
          returned tt,
        ))
    × (Dict.has (JsonRpcId.int (pos 5)) fresh.pending_requests ≡ false
        → or_else (Dict.get "approve" fresh.handlers) fresh.fallback_handler ≡ none
        → route_request accepts fresh asked
          ≡ handle_unhandled_request accepts (registered accepts fresh asked) asked)
route_request_lem_example = route_request_lem accepts fresh asked

finish_handler_lem_example :
    ((p : PendingServerRequest)
      → Dict.get (JsonRpcId.int (pos 5)) waiting.pending_requests ≡ some p
      → p.responded ≡ false
      → finish_handler accepts waiting asked (result (Json.text "accept"))
        ≡ answered accepts waiting yes_answer p)
    × (((p : PendingServerRequest)
          → Dict.get (JsonRpcId.int (pos 5)) waiting.pending_requests ≡ some p
          → p.responded ≡ true)
        → finish_handler accepts waiting asked (result (Json.text "accept"))
          ≡ (waiting, returned tt))
finish_handler_lem_example =
    finish_handler_lem accepts waiting asked (result (Json.text "accept")) yes_answer refl refl

answers_at_most_requests_example :
    count
      (JsonRpcId.int (pos 5))
      (finish_handler accepts
        (route_request accepts (register_handler (new_router true queue) "approve" 0) asked).0
        asked
        (result (Json.text "accept"))).0.sent
    ≤ count_ids (JsonRpcId.int (pos 5)) (JsonRpcId.int (pos 5) ∷ [])
answers_at_most_requests_example =
    answers_at_most_requests accepts true queue (JsonRpcId.int (pos 5)) (JsonRpcId.int (pos 5) ∷ [])
      (finish_handler accepts
        (route_request accepts (register_handler (new_router true queue) "approve" 0) asked).0 asked
        (result (Json.text "accept"))).0
      (finished asked (result (Json.text "accept")) (routed asked (handled "approve" 0 start)))
