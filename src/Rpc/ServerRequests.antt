-- ===== src/Rpc/ServerRequests.antt =====
-- src/codex_agent_sdk/rpc/router.py: requests that the server sends to the client.
--
-- A handler is the application's code: it is known by a number, and its outcome enters as an
-- argument of `finish_handler`. The response sender is an argument of the router; it says for each
-- envelope whether it raises. `sent` lists the envelopes that were handed to it. What a method does
-- after its lock is one call of the sender, so each method is one step.
pub mod Subscriptions
pub mod Budget
pub mod Growth
pub mod Responses
pub mod Answers
pub mod Closing
use Prim.Native.String
use codex_python_sdk_unoffic.Common.{
  ℕ, ◌+◌, ℤ, negsuc, String, Bool, true, false, Option, none, some, List, [], ◌∷◌, ◌++◌, not, ◌==◌,
  string_eq, nat_eq, if◌then◌else◌, or_else, is_some, without,
}
use codex_python_sdk_unoffic.Common.Dict
use codex_python_sdk_unoffic.Common.Dict.{Dict}
use codex_python_sdk_unoffic.Json.{Json, Fields, get_field, is_null}
use codex_python_sdk_unoffic.Errors.{JsonRpcError}
use codex_python_sdk_unoffic.Rpc.Envelope.{
  JsonRpcId, id_eq, JsonRpcRequest, JsonRpcNotification, JsonRpcErrorObject,
}
use codex_python_sdk_unoffic.Rpc.Requests.{
  RpcException, rpc, client_state, duplicate_server_request_id, unknown_server_request_id,
  server_request_already_responded, Outcome, returned, raised, JsonRpcResponse, success, error,
}
use codex_python_sdk_unoffic.Rpc.Stream
use codex_python_sdk_unoffic.Rpc.Stream.{InboundMessageStream, queued, put_unbounded, new_stream}
use codex_python_sdk_unoffic.Rpc.Filter.{SubscriptionFilter, server_request_matches}

pub data UnhandledPolicy : Type 0 where
  queue reject : UnhandledPolicy

pub record PendingServerRequest : Type 0 where
  pub request : JsonRpcRequest
  pub responded : Bool

pub record ServerRequestSubscription : Type 0 where
  pub filter : SubscriptionFilter
  pub stream : InboundMessageStream JsonRpcRequest
  pub closed : Bool

pub record HandlerTask : Type 0 where
  pub request : JsonRpcRequest
  pub handler : ℕ

pub record ServerRequestRouter : Type 0 where
  pub has_sender : Bool
  pub unhandled_policy : UnhandledPolicy
  pub pending_requests : Dict JsonRpcId PendingServerRequest
  pub handlers : Dict String ℕ
  pub fallback_handler : Option ℕ
  pub handler_tasks : List HandlerTask
  pub next_subscription_id : ℕ
  pub objects : Dict ℕ ServerRequestSubscription
  pub registered : List ℕ
  pub closed : Bool
  pub terminal_error : Option RpcException
  pub sent : List JsonRpcResponse

abbrev pub new_router : Bool → UnhandledPolicy → ServerRequestRouter
new_router has_sender policy = record {
  has_sender = has_sender;
  unhandled_policy = policy;
  pending_requests = [];
  handlers = [];
  fallback_handler = none;
  handler_tasks = [];
  next_subscription_id = 0;
  objects = [];
  registered = [];
  closed = false;
  terminal_error = none;
  sent = [];
}

unfoldable pub register_handler : ServerRequestRouter → String → ℕ → ServerRequestRouter
register_handler r method h = record r { handlers = Dict.put method h r.handlers }

unfoldable pub remove_handler : ServerRequestRouter → String → ServerRequestRouter
remove_handler r method = record r { handlers = Dict.remove method r.handlers }

unfoldable pub set_fallback_handler : ServerRequestRouter → Option ℕ → ServerRequestRouter
set_fallback_handler r h = record r { fallback_handler = h }

abbrev pub Step : Type 0
Step = ServerRequestRouter × Outcome (Unit {0})

-- `_register_request`
unfoldable pub register_request : ServerRequestRouter → JsonRpcRequest → Step
register_request r q =
    if Dict.has q.id r.pending_requests
    then (r, raised (duplicate_server_request_id q.id q.method))
    else (
      record r {
        pending_requests =
            Dict.put q.id (record { request = q; responded = false }) r.pending_requests;
      },
      returned tt,
    )

abbrev pub response_id : JsonRpcResponse → JsonRpcId
response_id (success s) = s.id
response_id (error s) = s.id

-- `pending.responded = True`, and the envelope handed to the sender
abbrev pub hand_over :
    ServerRequestRouter → JsonRpcResponse → PendingServerRequest → ServerRequestRouter
hand_over r response p = record r {
  pending_requests =
      Dict.put (response_id response) (record p { responded = true }) r.pending_requests;
  sent = r.sent ++ response ∷ [];
}

module _ (sender : JsonRpcResponse → Option RpcException) where
  unfoldable pub sender_outcome : JsonRpcResponse → Outcome (Unit {0})
  sender_outcome response = elim (sender response) [ none ↦ returned tt | some e ↦ raised e ]

  -- `_send_response`
  unfoldable pub send_response : ServerRequestRouter → JsonRpcResponse → Step
  unfolding sender_outcome
  send_response r response =
      if r.has_sender
      then elim (Dict.get (response_id response) r.pending_requests) [
        | none ↦ (r, raised (unknown_server_request_id (response_id response)))
        | some p ↦
            if p.responded
            then (
              r,
              raised (server_request_already_responded (response_id response) p.request.method),
            )
            else (hand_over r response p, sender_outcome response)
      ]
      else (r, raised (client_state "server request responses are not available on this router"))

  unfoldable pub respond : ServerRequestRouter → JsonRpcId → Json → Step
  respond r i result = send_response r (success (record { id = i; result = result }))

  unfoldable pub reject_request : ServerRequestRouter → JsonRpcId → ℤ → String → Json → Step
  reject_request r i code message data_value = send_response r (
      error (record {
        id = i;
        error = record {
          code = code;
          message = message;
          data_value = data_value;
          data_present = not (is_null data_value);
        };
      }))

  -- one round of the loop of `_publish_request`
  unfoldable pub publish_to : ServerRequestRouter → JsonRpcRequest → ℕ → ServerRequestRouter
  publish_to r q i = elim (Dict.get i r.objects) [
    | none ↦ r
    | some s ↦
        if not (server_request_matches s.filter q) then r else elim (put_unbounded s.stream q) [
          | queued stream ↦ record r {
            objects = Dict.put i (record s { stream = stream }) r.objects;
          }
          | _ ↦ record r { registered = without i r.registered }
        ]
  ]

  unfoldable pub publish_each : ServerRequestRouter → JsonRpcRequest → List ℕ → ServerRequestRouter
  publish_each r q [] = r
  publish_each r q (i ∷ ids) = publish_each (publish_to r q i) q ids

  unfoldable pub publish_request : ServerRequestRouter → JsonRpcRequest → ServerRequestRouter
  publish_request r q = if r.closed then r else publish_each r q r.registered

  unfoldable pub unsupported : JsonRpcRequest → String
  unsupported q = String.◌++◌ "unsupported server request method: " q.method

  unfoldable pub handle_by : UnhandledPolicy → ServerRequestRouter → JsonRpcRequest → Step
  unfolding unsupported
  handle_by queue r q = (publish_request r q, returned tt)
  handle_by reject r q = reject_request r q.id (negsuc 32600) (unsupported q) Json.null

  unfoldable pub handle_unhandled_request : ServerRequestRouter → JsonRpcRequest → Step
  handle_unhandled_request r q = handle_by r.unhandled_policy r q

  -- the handler for the method, or the fallback
  unfoldable pub find_handler : ServerRequestRouter → JsonRpcRequest → Option ℕ
  find_handler r q = or_else (Dict.get q.method r.handlers) r.fallback_handler

  unfoldable pub dispatch_registered : ServerRequestRouter → JsonRpcRequest → Step
  dispatch_registered r q = elim (find_handler r q) [
    | none ↦ handle_unhandled_request r q
    | some h ↦ (
      record r { handler_tasks = r.handler_tasks ++ (record { request = q; handler = h }) ∷ [] },
      returned tt,
    )
  ]

  unfoldable pub after_register : Step → JsonRpcRequest → Step
  after_register (r, returned _) q = dispatch_registered r q
  after_register (r, raised e) q = (r, raised e)

  unfoldable pub route_request : ServerRequestRouter → JsonRpcRequest → Step
  route_request r q = after_register (register_request r q) q

  -- `except (ServerRequestAlreadyRespondedError, UnknownServerRequestIdError)`: logged and dropped
  unfoldable pub drop_stale : Outcome (Unit {0}) → Outcome (Unit {0})
  drop_stale (raised (server_request_already_responded i m)) = returned tt
  drop_stale (raised (unknown_server_request_id i)) = returned tt
  drop_stale o = o

  abbrev pub dropping : Step → Step
  dropping (r, o) = (r, drop_stale o)

  -- `_handle_handler_exception`
  unfoldable pub handle_handler_exception :
      ServerRequestRouter → JsonRpcRequest → RpcException → Step
  handle_handler_exception r q (rpc e) =
      dropping (reject_request r q.id e.code e.rpc_message e.data_value)
  handle_handler_exception r q _ =
      dropping
        (reject_request r q.id (negsuc 32602) "client server-request handler failed" Json.null)

-- how the application's handler ends
pub data HandlerOutcome : Type 0 where
  result : Json → HandlerOutcome
  not_handled : HandlerOutcome
  raises : RpcException → HandlerOutcome
  task_cancelled : HandlerOutcome

module _ (sender : JsonRpcResponse → Option RpcException) where
  -- `_run_handler`, from the handler's end
  unfoldable pub finish_handler : ServerRequestRouter → JsonRpcRequest → HandlerOutcome → Step
  finish_handler r q (result v) = dropping sender (respond sender r q.id v)
  finish_handler r q not_handled = handle_unhandled_request sender r q
  finish_handler r q (raises e) = handle_handler_exception sender r q e
  finish_handler r q task_cancelled = (r, returned tt)

-- whether the id was pending
unfoldable pub resolve_request : ServerRequestRouter → JsonRpcId → ServerRequestRouter × Bool
resolve_request r i = (
  record r { pending_requests = Dict.remove i r.pending_requests },
  Dict.has i r.pending_requests,
)

-- `_extract_resolved_request_id`, with `none` for `(False, None)`
as_request_id : Json → Option JsonRpcId
as_request_id Json.null = some JsonRpcId.null
as_request_id (Json.text s) = some (JsonRpcId.text s)
as_request_id (Json.int n) = some (JsonRpcId.int n)
as_request_id _ = none

unfoldable pub extract_resolved_request_id : Json → Option JsonRpcId
unfolding as_request_id
extract_resolved_request_id (Json.object params) = elim (get_field "requestId" params) [
  | none ↦ none
  | some v ↦ as_request_id v
]
extract_resolved_request_id _ = none

unfoldable pub observe_resolution_notification :
    ServerRequestRouter → JsonRpcNotification → ServerRequestRouter × Bool
observe_resolution_notification r n =
    if n.method == "serverRequest/resolved"
    then (if n.params_present
        then elim (extract_resolved_request_id n.params) [
          | none ↦ (r, false)
          | some i ↦ resolve_request r i
        ]
        else (r, false))
    else (r, false)

unfoldable pub close_from_router :
    ServerRequestSubscription → Option RpcException → ServerRequestSubscription
close_from_router s e =
    if s.closed then s else record s { closed = true; stream = Stream.close s.stream e }

-- one round of the loop of `close`
unfoldable pub close_one : ServerRequestRouter → Option RpcException → ℕ → ServerRequestRouter
close_one r e i = elim (Dict.get i r.objects) [
  | none ↦ record r { registered = without i r.registered }
  | some s ↦ record r {
    registered = without i r.registered;
    objects = Dict.put i (close_from_router s e) r.objects;
  }
]

unfoldable pub close_each : ServerRequestRouter → Option RpcException → List ℕ → ServerRequestRouter
close_each r e [] = r
close_each r e (i ∷ ids) = close_each (close_one r e i) e ids

-- The handler tasks are cancelled: they end with `task_cancelled` and leave the set.
unfoldable pub close : ServerRequestRouter → Option RpcException → ServerRequestRouter
close r e =
    close_each
      (record r {
        closed = true;
        terminal_error = or_else r.terminal_error e;
        pending_requests = [];
        handler_tasks = [];
      })
      e r.registered

unfoldable pub subscribe : ServerRequestRouter → SubscriptionFilter → ServerRequestRouter × ℕ
subscribe r filter =
    let i = r.next_subscription_id + 1 in
    let s : ServerRequestSubscription = record {
      filter = filter;
      stream = new_stream 0;
      closed = false;
    } in
    if r.closed
    then (
      record r {
        next_subscription_id = i;
        objects = Dict.put i (close_from_router s r.terminal_error) r.objects;
      },
      i,
    )
    else (
      record r {
        next_subscription_id = i;
        objects = Dict.put i s r.objects;
        registered = r.registered ++ i ∷ [];
      },
      i,
    )
