-- ===== src/Rpc/Dispatcher.antt =====
-- src/codex_agent_sdk/rpc/router.py: `JsonRpcBackgroundDispatcher`, the task that reads envelopes
-- and routes each to the registry, the bus or the router.
--
-- What `read_stdout_envelope` yields enters as a list of reads. Routing suspends only in the
-- response sender, which is a parameter. `fatal_errors` lists the calls of `on_fatal_error`.
pub mod Runs
pub mod Failure
pub mod Unmatched
use codex_python_sdk_unoffic.Common.{
  Bool, true, false, Option, none, some, List, [], ◌∷◌, ◌++◌, if◌then◌else◌,
}
use codex_python_sdk_unoffic.Rpc.Envelope.{JsonRpcEnvelope, JsonRpcRequest, JsonRpcNotification}
use codex_python_sdk_unoffic.Rpc.Requests.{
  RpcException, late_response, external, FinalizedRequestStatus, JsonRpcRequestRegistry, Outcome,
  returned, raised, JsonRpcResponse, resolve_response, observe, fail_all,
}
use codex_python_sdk_unoffic.Rpc.Notifications
use codex_python_sdk_unoffic.Rpc.Notifications.{JsonRpcNotificationBus, publish}
use codex_python_sdk_unoffic.Rpc.ServerRequests
use codex_python_sdk_unoffic.Rpc.ServerRequests.{
  ServerRequestRouter, route_request, observe_resolution_notification,
}

pub data DispatchTask : Type 0 where
  not_started running ended : DispatchTask

pub record JsonRpcBackgroundDispatcher : Type 0 where
  pub requests : JsonRpcRequestRegistry
  pub notifications : JsonRpcNotificationBus
  pub server_requests : ServerRequestRouter
  pub dispatch_task : DispatchTask
  pub stop_requested : Bool
  pub fatal_errors : List RpcException

pub data Read : Type 0 where
  envelope : JsonRpcEnvelope → Read
  end_of_stream : Read
  read_error : RpcException → Read
  task_cancelled : Read

unfoldable pub start : JsonRpcBackgroundDispatcher → JsonRpcBackgroundDispatcher
start d = elim d.dispatch_task [
  | not_started ↦ record d { stop_requested = false; dispatch_task = running }
  | _ ↦ d
]

-- `stop` asks; the task ends at its next read
unfoldable pub stop : JsonRpcBackgroundDispatcher → JsonRpcBackgroundDispatcher
stop d = record d { stop_requested = true }

-- `except LateResponseError`: logged and ignored
unfoldable pub ignore_late : Outcome (Unit {0}) → Outcome (Unit {0})
ignore_late (raised (late_response i reason m)) = returned tt
ignore_late o = o

abbrev pub Dispatched : Type 0
Dispatched = JsonRpcBackgroundDispatcher × Outcome (Unit {0})

unfoldable pub dispatch_response : JsonRpcBackgroundDispatcher → JsonRpcResponse → Dispatched
unfolding ignore_late
dispatch_response d response =
    let (requests', outcome) = resolve_response d.requests response in
    (record d { requests = requests' }, ignore_late outcome)

unfoldable pub dispatch_notification :
    JsonRpcBackgroundDispatcher → JsonRpcNotification → JsonRpcBackgroundDispatcher
dispatch_notification d n = record d {
  server_requests = (observe_resolution_notification d.server_requests n).0;
  notifications = publish d.notifications n;
}

unfoldable pub fail_dispatch :
    JsonRpcBackgroundDispatcher → RpcException → JsonRpcBackgroundDispatcher
fail_dispatch d exc = record d {
  requests = fail_all d.requests exc FinalizedRequestStatus.failed;
  notifications = Notifications.close d.notifications (some exc);
  server_requests = ServerRequests.close d.server_requests (some exc);
  fatal_errors = d.fatal_errors ++ exc ∷ [];
}

abbrev pub end_task : JsonRpcBackgroundDispatcher → JsonRpcBackgroundDispatcher
end_task d = record d { dispatch_task = ended }

-- `except BaseException`
unfoldable pub on_exception :
    JsonRpcBackgroundDispatcher → RpcException → JsonRpcBackgroundDispatcher
unfolding fail_dispatch
on_exception d exc = end_task (if d.stop_requested then d else fail_dispatch d exc)

abbrev pub transport_closed : RpcException
transport_closed = external "app-server stdout reached EOF while requests were still possible"

module _ (sender : JsonRpcResponse → Option RpcException) where
  unfoldable pub dispatch_request : JsonRpcBackgroundDispatcher → JsonRpcRequest → Dispatched
  dispatch_request d q =
      let (router, outcome) = route_request sender d.server_requests q in
      (record d { requests = observe d.requests q.id; server_requests = router }, outcome)

  unfoldable pub dispatch_envelope : JsonRpcBackgroundDispatcher → JsonRpcEnvelope → Dispatched
  unfolding dispatch_response dispatch_notification dispatch_request
  dispatch_envelope d (JsonRpcEnvelope.success_response s) =
      dispatch_response d (JsonRpcResponse.success s)
  dispatch_envelope d (JsonRpcEnvelope.error_response s) =
      dispatch_response d (JsonRpcResponse.error s)
  dispatch_envelope d (JsonRpcEnvelope.request q) = dispatch_request d q
  dispatch_envelope d (JsonRpcEnvelope.notification n) = (dispatch_notification d n, returned tt)

  abbrev pub conclude : Dispatched → JsonRpcBackgroundDispatcher
  conclude (d, returned _) = d
  conclude (d, raised exc) = on_exception d exc

  -- one round of the loop of `_dispatch_loop`
  unfoldable pub dispatch_round : JsonRpcBackgroundDispatcher → Read → JsonRpcBackgroundDispatcher
  unfolding dispatch_envelope on_exception
  dispatch_round d (envelope e) = conclude (dispatch_envelope d e)
  dispatch_round d end_of_stream =
      if d.stop_requested then end_task d else on_exception d transport_closed
  dispatch_round d (read_error exc) = on_exception d exc
  dispatch_round d task_cancelled = end_task d

  unfoldable pub dispatch_loop :
      JsonRpcBackgroundDispatcher → List Read → JsonRpcBackgroundDispatcher
  unfolding dispatch_round
  dispatch_loop d [] = d
  dispatch_loop d (r ∷ rs) = elim d.dispatch_task [
    | running ↦ dispatch_loop (dispatch_round d r) rs
    | _ ↦ d
  ]
