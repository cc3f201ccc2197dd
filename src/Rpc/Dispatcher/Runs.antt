-- ===== src/Rpc/Dispatcher/Runs.antt =====
-- src/codex_agent_sdk/rpc/router.py: what the dispatcher keeps of its registry and its bus.
use codex_python_sdk_unoffic.Common.{Bool, true, false, if◌then◌else◌, Option, some, List, [], ◌∷◌}
use codex_python_sdk_unoffic.Rpc.Envelope.{JsonRpcEnvelope}
use codex_python_sdk_unoffic.Rpc.Requests.{
  RpcException, FinalizedRequestStatus, JsonRpcResponse, returned, raised,
}
use codex_python_sdk_unoffic.Rpc.Requests.Invariant.{observe-IsValid}
use codex_python_sdk_unoffic.Rpc.Requests.Invariant as RegistryLaws
use codex_python_sdk_unoffic.Rpc.Requests.Runs.{resolve_response-IsValid, fail_all-IsValid}
use codex_python_sdk_unoffic.Rpc.Notifications.Bounds as BusLaws
use codex_python_sdk_unoffic.Rpc.Notifications.Runs.{publish-IsValid, close-IsValid}
use codex_python_sdk_unoffic.Rpc.Dispatcher.{
  JsonRpcBackgroundDispatcher, running, Read, envelope, end_of_stream, read_error, task_cancelled,
  dispatch_envelope, dispatch_response, dispatch_request, dispatch_notification, fail_dispatch,
  on_exception, end_task, Dispatched, conclude, dispatch_round, dispatch_loop, transport_closed,
}

-- the registry and the bus are each valid
pub record IsSound (d : JsonRpcBackgroundDispatcher) : Type 0 where
  pub registry : RegistryLaws.IsValid d.requests
  pub bus : BusLaws.IsValid d.notifications

end-IsSound : (d : JsonRpcBackgroundDispatcher) → IsSound d → IsSound (end_task d)
end-IsSound d v = record { registry = v.registry; bus = v.bus }

either-IsSound :
    (b : Bool) (c d : JsonRpcBackgroundDispatcher)
    → IsSound c
    → IsSound d
    → IsSound (if b then c else d)
either-IsSound true c d v w = v
either-IsSound false c d v w = w

pub fail_dispatch-IsSound :
    (d : JsonRpcBackgroundDispatcher) (exc : RpcException)
    → IsSound d
    → IsSound (fail_dispatch d exc)
unfolding fail_dispatch
fail_dispatch-IsSound d exc v = record {
  registry = fail_all-IsValid d.requests exc FinalizedRequestStatus.failed v.registry;
  bus = close-IsValid d.notifications (some exc) v.bus;
}

on_exception-IsSound :
    (d : JsonRpcBackgroundDispatcher) (exc : RpcException)
    → IsSound d
    → IsSound (on_exception d exc)
unfolding on_exception
on_exception-IsSound d exc v =
    end-IsSound (if d.stop_requested then d else fail_dispatch d exc)
      (either-IsSound d.stop_requested d (fail_dispatch d exc) v (fail_dispatch-IsSound d exc v))

module _ (sender : JsonRpcResponse → Option RpcException) where
  dispatch_response-IsSound :
      (d : JsonRpcBackgroundDispatcher) (x : JsonRpcResponse)
      → IsSound d
      → IsSound (dispatch_response d x).0
  unfolding dispatch_response
  dispatch_response-IsSound d x v = record {
    registry = resolve_response-IsValid d.requests x v.registry;
    bus = v.bus;
  }

  pub dispatch_envelope-IsSound :
      (d : JsonRpcBackgroundDispatcher) (e : JsonRpcEnvelope)
      → IsSound d
      → IsSound (dispatch_envelope sender d e).0
  unfolding dispatch_envelope dispatch_request dispatch_notification
  dispatch_envelope-IsSound d (JsonRpcEnvelope.success_response s) v =
      dispatch_response-IsSound d (JsonRpcResponse.success s) v
  dispatch_envelope-IsSound d (JsonRpcEnvelope.error_response s) v =
      dispatch_response-IsSound d (JsonRpcResponse.error s) v
  dispatch_envelope-IsSound d (JsonRpcEnvelope.request q) v = record {
    registry = observe-IsValid d.requests q.id v.registry;
    bus = v.bus;
  }
  dispatch_envelope-IsSound d (JsonRpcEnvelope.notification n) v = record {
    registry = v.registry;
    bus = publish-IsValid d.notifications n v.bus;
  }

  conclude-IsSound : (x : Dispatched) → IsSound x.0 → IsSound (conclude sender x)
  conclude-IsSound (d, returned u) v = v
  conclude-IsSound (d, raised exc) v = on_exception-IsSound d exc v

  dispatch_round-IsSound :
      (d : JsonRpcBackgroundDispatcher) (r : Read) → IsSound d → IsSound (dispatch_round sender d r)
  unfolding dispatch_round
  dispatch_round-IsSound d (envelope e) v =
      conclude-IsSound (dispatch_envelope sender d e) (dispatch_envelope-IsSound d e v)
  dispatch_round-IsSound d end_of_stream v =
      either-IsSound d.stop_requested (end_task d) (on_exception d transport_closed)
        (end-IsSound d v) (on_exception-IsSound d transport_closed v)
  dispatch_round-IsSound d (read_error exc) v = on_exception-IsSound d exc v
  dispatch_round-IsSound d task_cancelled v = end-IsSound d v

  -- Whatever the transport yields, well-formed or not, and whether or not the sender fails, the
  -- dispatcher leaves its registry and its bus valid.
  pub dispatch_loop-IsSound :
      (d : JsonRpcBackgroundDispatcher) (rs : List Read)
      → IsSound d
      → IsSound (dispatch_loop sender d rs)
  unfolding dispatch_loop
  dispatch_loop-IsSound d [] v = v
  dispatch_loop-IsSound d (r ∷ rs) v =
      let later =
        dispatch_loop-IsSound (dispatch_round sender d r) rs (dispatch_round-IsSound d r v) in
      elim d.dispatch_task
        as (λ t.
          IsSound
            (elim t [ running ↦ dispatch_loop sender (dispatch_round sender d r) rs | _ ↦ d ])) [
              | running ↦ later
              | _ ↦ v
            ]
