-- ===== src/Rpc/Connection.antt =====
-- src/codex_agent_sdk/rpc/connection.py: `JsonRpcConnection`, the registry, the bus, the router and
-- the dispatcher over one transport.
--
-- The coroutines suspend while the transport starts, writes or closes and while a caller waits for
-- its future; each function here is what runs between two such points, and any other may run in
-- between. What the transport does enters as an argument: a write ends by a `Written` or by the
-- error it raises. The close lock is held over no suspension, and nothing of the connection changes
-- after the transport's close in `_fail_connection`. The functions that take `write`, which says for
-- each response whether writing it fails, are calls during whose write no other task runs.
pub mod Routers
pub mod Closed
pub mod Operations
pub mod Rounds
pub mod Runs
pub mod Timeouts
use codex_python_sdk_unoffic.Common.{
  ℕ, ℤ, String, Bool, true, false, Option, none, some, List, [], ◌∷◌, or_else, length, get_elem?,
  if◌then◌else◌,
}
use codex_python_sdk_unoffic.Json.{Json}
use codex_python_sdk_unoffic.Rpc.Envelope.{JsonRpcId, JsonRpcRequest}
use codex_python_sdk_unoffic.Rpc.Requests.{
  RpcException, external, request_timeout, FinalizedRequestStatus, FutureState, future_state,
  PendingJsonRpcRequest, JsonRpcRequestRegistry, Outcome, returned, raised, JsonRpcResponse,
  register_request, cancel_request, fail_request, fail_all,
}
use codex_python_sdk_unoffic.Rpc.Notifications
use codex_python_sdk_unoffic.Rpc.Notifications.{JsonRpcNotificationBus}
use codex_python_sdk_unoffic.Rpc.ServerRequests
use codex_python_sdk_unoffic.Rpc.ServerRequests.{
  ServerRequestRouter, respond, reject_request, HandlerOutcome, finish_handler,
}
use codex_python_sdk_unoffic.Rpc.Dispatcher
use codex_python_sdk_unoffic.Rpc.Dispatcher.{
  JsonRpcBackgroundDispatcher, DispatchTask, not_started, Read, dispatch_round, on_exception,
}

pub record JsonRpcConnection : Type 0 where
  pub dispatcher : JsonRpcBackgroundDispatcher
  pub is_closed : Bool
  pub terminal_error : Option RpcException

-- `__init__`, around what it makes of the parts
abbrev pub new_connection :
    JsonRpcRequestRegistry → JsonRpcNotificationBus → ServerRequestRouter → JsonRpcConnection
new_connection requests notifications server_requests = record {
  dispatcher = record {
    requests = requests;
    notifications = notifications;
    server_requests = server_requests;
    dispatch_task = not_started;
    stop_requested = false;
    fatal_errors = [];
  };
  is_closed = false;
  terminal_error = none;
}

abbrev pub Answer : Type 0 → Type 0
Answer A = JsonRpcConnection × Outcome A

abbrev pub with_requests : JsonRpcConnection → JsonRpcRequestRegistry → JsonRpcConnection
with_requests c r = record c { dispatcher = record c.dispatcher { requests = r } }

abbrev pub with_router : JsonRpcConnection → ServerRequestRouter → JsonRpcConnection
with_router c r = record c { dispatcher = record c.dispatcher { server_requests = r } }

abbrev pub already_closed : RpcException
already_closed = external "app-server connection is already closed"

-- `_raise_if_closed`: what it raises
unfoldable pub closed_error : JsonRpcConnection → Option RpcException
closed_error c = or_else c.terminal_error (if c.is_closed then some already_closed else none)

-- a body that starts with `_raise_if_closed`
unfoldable pub unless_closed : {A : Type 0} → JsonRpcConnection → Answer A → Answer A
unfolding closed_error
unless_closed c body = elim (closed_error c) [ none ↦ body | some exc ↦ (c, raised exc) ]

-- the three subsystems are told, and the event is set
unfoldable pub shut :
    JsonRpcConnection
    → RpcException
    → FinalizedRequestStatus
    → Option RpcException
    → JsonRpcConnection
shut c exc reason error = record c {
  is_closed = true;
  dispatcher = record c.dispatcher {
    requests = fail_all c.dispatcher.requests exc reason;
    notifications = Notifications.close c.dispatcher.notifications error;
    server_requests = ServerRequests.close c.dispatcher.server_requests error;
  };
}

-- `_fail_connection`
unfoldable pub fail_connection : JsonRpcConnection → RpcException → JsonRpcConnection
unfolding shut
fail_connection c exc =
    if c.is_closed
    then c
    else shut (record c { terminal_error = some exc }) exc FinalizedRequestStatus.failed (some exc)

-- `_fail_connection` for an error, if there is one
unfoldable pub fail_with : JsonRpcConnection → Option RpcException → JsonRpcConnection
unfolding fail_connection
fail_with c none = c
fail_with c (some exc) = fail_connection c exc

-- the locked part of `close`
unfoldable pub close_once : JsonRpcConnection → JsonRpcConnection
unfolding shut
close_once c =
    if c.is_closed
    then c
    else shut c (external "app-server connection closed before request completion")
        FinalizedRequestStatus.closed none

-- `close`, from the end of the transport's close
unfoldable pub after_close : JsonRpcConnection → JsonRpcConnection
after_close c = record c { dispatcher = Dispatcher.stop c.dispatcher }

-- `start`, up to the transport's start: whether that is started, under the start lock
unfoldable pub begin_start : JsonRpcConnection → Answer Bool
unfolding unless_closed
begin_start c =
    unless_closed c
      (c, returned (elim c.dispatcher.dispatch_task [ not_started ↦ true | _ ↦ false ]))

-- `start`, from the end of the transport's start, which can fail
unfoldable pub after_start : JsonRpcConnection → Option RpcException → Answer (Unit {0})
after_start c none = (record c { dispatcher = Dispatcher.start c.dispatcher }, returned tt)
after_start c (some exc) = (c, raised exc)

-- `request`, up to its write
unfoldable pub begin_request : JsonRpcConnection → String → Answer PendingJsonRpcRequest
unfolding unless_closed
begin_request c method = unless_closed c (
    let (r, outcome) = register_request c.dispatcher.requests method JsonRpcId.null in
    (with_requests c r, outcome))

pub data Written : Type 0 where
  written : Written
  write_failed : RpcException → Written
  write_cancelled : Written

-- `request`, from the end of its write to its wait
unfoldable pub after_write : JsonRpcConnection → JsonRpcId → Written → JsonRpcConnection
unfolding fail_connection
after_write c i written = c
after_write c i (write_failed exc) =
    fail_connection
      (with_requests c (fail_request c.dispatcher.requests i exc FinalizedRequestStatus.failed).0)
      exc
after_write c i write_cancelled =
    with_requests c (cancel_request c.dispatcher.requests i FinalizedRequestStatus.cancelled).0

-- `notify`, from the end of its write
unfoldable pub after_notify : JsonRpcConnection → Written → JsonRpcConnection
unfolding fail_connection
after_notify c (write_failed exc) = fail_connection c exc
after_notify c _ = c

-- how a call of `request` ends
pub data Awaited : Type 0 where
  result : Json → Awaited
  raises : RpcException → Awaited
  task_cancelled : Awaited

-- `future.result()`; a future that waits would raise `InvalidStateError`
abbrev pub future_result : FutureState → Option Awaited
future_result (FutureState.result v) = some (result v)
future_result (FutureState.exception exc) = some (raises exc)
future_result FutureState.cancelled = some task_cancelled
future_result FutureState.waiting = none

abbrev pub done_result : Option FutureState → Option Awaited
done_result none = none
done_result (some f) = future_result f

abbrev pub or_awaited : Option Awaited → Awaited → Awaited
or_awaited none o = o
or_awaited (some x) o = x

-- `_await_request_result` when its timeout strikes
unfoldable pub on_timeout : JsonRpcConnection → PendingJsonRpcRequest → JsonRpcConnection × Awaited
on_timeout c p =
    let (r, released) =
      cancel_request c.dispatcher.requests p.request_id FinalizedRequestStatus.timed_out in
    let timeout = raises (request_timeout p.method p.request_id) in
    (
      with_requests c r,
      if released then timeout else or_awaited (done_result (future_state r p.future)) timeout,
    )

-- `_await_request_result` when its task is cancelled
unfoldable pub on_cancelled : JsonRpcConnection → JsonRpcId → JsonRpcConnection
on_cancelled c i =
    with_requests c (cancel_request c.dispatcher.requests i FinalizedRequestStatus.cancelled).0

-- a write that is still going on: nothing has failed yet
abbrev pub unfinished : JsonRpcResponse → Option RpcException
unfinished response = none

-- `respond_server_request`, up to its write
unfoldable pub begin_respond : JsonRpcConnection → JsonRpcId → Json → Answer (Unit {0})
unfolding unless_closed
begin_respond c i v = unless_closed c (
    let (router, outcome) = respond unfinished c.dispatcher.server_requests i v in
    (with_router c router, outcome))

-- `reject_server_request`, up to its write
unfoldable pub begin_reject : JsonRpcConnection → JsonRpcId → ℤ → String → Json → Answer (Unit {0})
unfolding unless_closed
begin_reject c i code message data_value = unless_closed c (
    let (router, outcome) =
      reject_request unfinished c.dispatcher.server_requests i code message data_value in
    (with_router c router, outcome))

-- the end of a handler, up to the write of its answer
unfoldable pub begin_answer :
    JsonRpcConnection → JsonRpcRequest → HandlerOutcome → JsonRpcConnection
begin_answer c q o = with_router c (finish_handler unfinished c.dispatcher.server_requests q o).0

-- `_send_server_request_response`, from the end of its write: a failed write fails the connection
unfoldable pub after_response : JsonRpcConnection → Option RpcException → JsonRpcConnection
unfolding fail_with
after_response c e = fail_with c e

-- what the dispatcher has become, with `_fail_connection` for what it reports
unfoldable pub reports : JsonRpcConnection → JsonRpcBackgroundDispatcher → JsonRpcConnection
unfolding fail_with
reports c d =
    fail_with (record c { dispatcher = d })
      (get_elem? d.fatal_errors (length c.dispatcher.fatal_errors))

-- one read of the dispatcher, up to the write of a response, if routing sends one
unfoldable pub on_read : JsonRpcConnection → Read → JsonRpcConnection
unfolding reports
on_read c read = reports c (dispatch_round unfinished c.dispatcher read)

-- the dispatcher, from the failure of that write
unfoldable pub routing_failed : JsonRpcConnection → RpcException → JsonRpcConnection
unfolding reports
routing_failed c exc = reports c (on_exception c.dispatcher exc)

module _ (write : JsonRpcResponse → Option RpcException) where
  -- the error of a response that was handed to the transport since the earlier router
  unfoldable pub write_error : ServerRequestRouter → ServerRequestRouter → Option RpcException
  write_error before after = elim (get_elem? after.sent (length before.sent)) [
    | none ↦ none
    | some response ↦ write response
  ]

  -- a response handed over, and the end of its write
  unfoldable pub after_sending : JsonRpcConnection → ServerRequestRouter → JsonRpcConnection
  unfolding write_error after_response
  after_sending c router =
      after_response (with_router c router) (write_error c.dispatcher.server_requests router)

  unfoldable pub respond_server_request : JsonRpcConnection → JsonRpcId → Json → Answer (Unit {0})
  unfolding unless_closed after_sending
  respond_server_request c i v = unless_closed c (
      let (router, outcome) = respond write c.dispatcher.server_requests i v in
      (after_sending c router, outcome))

  -- the end of a handler's task
  unfoldable pub handler_ends :
      JsonRpcConnection → JsonRpcRequest → HandlerOutcome → JsonRpcConnection
  unfolding after_sending
  handler_ends c q o = after_sending c (finish_handler write c.dispatcher.server_requests q o).0
