-- ===== src/Rpc/Connection/Rounds.antt =====
-- src/codex_agent_sdk/rpc/router.py: a round of the dispatcher of a closed connection.
use codex_python_sdk_unoffic.Common.{
  Bool, true, false, Option, some, ◌≡◌, refl, ◌∙◌, ap, if◌then◌else◌,
}
use codex_python_sdk_unoffic.Rpc.Envelope.{JsonRpcEnvelope, JsonRpcNotification}
use codex_python_sdk_unoffic.Rpc.Requests.{
  RpcException, FinalizedRequestStatus, returned, raised, JsonRpcResponse,
}
use codex_python_sdk_unoffic.Rpc.Requests.FailAll.{fail_all_lem}
use codex_python_sdk_unoffic.Rpc.Notifications.{JsonRpcNotificationBus, publish}
use codex_python_sdk_unoffic.Rpc.Notifications.Runs.{closed-close}
use codex_python_sdk_unoffic.Rpc.Dispatcher.{
  JsonRpcBackgroundDispatcher, Read, envelope, end_of_stream, read_error, task_cancelled,
  Dispatched, conclude, dispatch_round, dispatch_envelope, dispatch_response, dispatch_notification,
  dispatch_request, on_exception, fail_dispatch, transport_closed, end_task,
}
use codex_python_sdk_unoffic.Rpc.ServerRequests.Closing.{close-IsClosed}
use codex_python_sdk_unoffic.Rpc.Connection.{JsonRpcConnection, unfinished, on_read, routing_failed}
use codex_python_sdk_unoffic.Rpc.Connection.Routers.{
  resolve_response-IsIdle, observe-IsIdle, route-Same, observe_resolution-Same,
}
use codex_python_sdk_unoffic.Rpc.Connection.Closed.{IsDown, Follows}
use codex_python_sdk_unoffic.Rpc.Connection.Operations.{reports-Follows}

fail_dispatch-IsDown :
    (d : JsonRpcBackgroundDispatcher) (exc : RpcException) → IsDown (fail_dispatch d exc)
unfolding fail_dispatch
fail_dispatch-IsDown d exc = record {
  idle = (fail_all_lem d.requests exc FinalizedRequestStatus.failed).0;
  bus = closed-close d.notifications (some exc);
  router = (close-IsClosed d.server_requests (some exc)).closed;
}

end_task-IsDown : (d : JsonRpcBackgroundDispatcher) → IsDown d → IsDown (end_task d)
end_task-IsDown d v = record { idle = v.idle; bus = v.bus; router = v.router }

either-IsDown :
    (b : Bool) {d e : JsonRpcBackgroundDispatcher}
    → IsDown d
    → IsDown e
    → IsDown (if b then d else e)
either-IsDown true v w = v
either-IsDown false v w = w

on_exception-IsDown :
    (d : JsonRpcBackgroundDispatcher) (exc : RpcException) → IsDown d → IsDown (on_exception d exc)
unfolding on_exception
on_exception-IsDown d exc v =
    end_task-IsDown _ (either-IsDown d.stop_requested v (fail_dispatch-IsDown d exc))

closed_publish :
    (bus : JsonRpcNotificationBus) (n : JsonRpcNotification)
    → bus.closed ≡ true
    → publish bus n ≡ bus
unfolding publish
closed_publish bus n h = rw h refl

module _ (write : JsonRpcResponse → Option RpcException) where
  dispatch_envelope-IsDown :
      (d : JsonRpcBackgroundDispatcher) (e : JsonRpcEnvelope)
      → IsDown d
      → IsDown (dispatch_envelope write d e).0
  unfolding dispatch_envelope dispatch_response dispatch_notification dispatch_request
  dispatch_envelope-IsDown d (JsonRpcEnvelope.success_response s) v = record {
    idle = resolve_response-IsIdle d.requests (JsonRpcResponse.success s) v.idle;
    bus = v.bus;
    router = v.router;
  }
  dispatch_envelope-IsDown d (JsonRpcEnvelope.error_response s) v = record {
    idle = resolve_response-IsIdle d.requests (JsonRpcResponse.error s) v.idle;
    bus = v.bus;
    router = v.router;
  }
  dispatch_envelope-IsDown d (JsonRpcEnvelope.request q) v = record {
    idle = observe-IsIdle d.requests q.id v.idle;
    bus = v.bus;
    router = route-Same write d.server_requests q ∙ v.router;
  }
  dispatch_envelope-IsDown d (JsonRpcEnvelope.notification n) v = record {
    idle = v.idle;
    bus =
        ap (λ (b : JsonRpcNotificationBus). b.closed) (closed_publish d.notifications n v.bus)
        ∙ v.bus;
    router = observe_resolution-Same d.server_requests n ∙ v.router;
  }

  conclude-IsDown : (x : Dispatched) → IsDown x.0 → IsDown (conclude write x)
  conclude-IsDown (d, returned u) v = v
  conclude-IsDown (d, raised exc) v = on_exception-IsDown d exc v

  dispatch_round-IsDown :
      (d : JsonRpcBackgroundDispatcher) (r : Read) → IsDown d → IsDown (dispatch_round write d r)
  unfolding dispatch_round
  dispatch_round-IsDown d (envelope e) v =
      conclude-IsDown (dispatch_envelope write d e) (dispatch_envelope-IsDown d e v)
  dispatch_round-IsDown d end_of_stream v =
      either-IsDown d.stop_requested (end_task-IsDown d v)
        (on_exception-IsDown d transport_closed v)
  dispatch_round-IsDown d (read_error exc) v = on_exception-IsDown d exc v
  dispatch_round-IsDown d task_cancelled v = end_task-IsDown d v

-- A read leaves a closed connection closed.
pub on_read-Follows : (c : JsonRpcConnection) (r : Read) → Follows c (on_read c r)
unfolding on_read
on_read-Follows c r =
    reports-Follows c (dispatch_round unfinished c.dispatcher r)
      (dispatch_round-IsDown unfinished c.dispatcher r)

pub routing_failed-Follows :
    (c : JsonRpcConnection) (exc : RpcException) → Follows c (routing_failed c exc)
unfolding routing_failed
routing_failed-Follows c exc =
    reports-Follows c (on_exception c.dispatcher exc) (on_exception-IsDown c.dispatcher exc)
