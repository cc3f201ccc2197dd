-- ===== src/Rpc/Dispatcher/Failure.antt =====
-- src/codex_agent_sdk/rpc/router.py: what ends the dispatcher, and what it leaves behind.
use codex_python_sdk_unoffic.Common.{
  mem, nat_eq, true, false, Option, none, some, some-injective, [], ◌∷◌, ◌++◌, ◌≡◌, ◌≢◌, refl, sym,
  subst, ap, ◌∙◌, ℕ, arith, if◌then◌else◌,
}
use codex_python_sdk_unoffic.Common.Dict
use codex_python_sdk_unoffic.Rpc.Envelope.{JsonRpcEnvelope, JsonRpcId, id_eq}
use codex_python_sdk_unoffic.Rpc.Requests.{
  RpcException, FinalizedRequest, FinalizedRequestStatus, FutureState, future_state,
  PendingJsonRpcRequest, JsonRpcResponse, response_id, Outcome, returned, raised, unmatched,
}
use codex_python_sdk_unoffic.Rpc.Requests.FailAll.{fail_all_lem}
use codex_python_sdk_unoffic.Rpc.Requests.Correlation.{resolve_response_miss}
use codex_python_sdk_unoffic.Rpc.Notifications.Runs.{closed-close}
use codex_python_sdk_unoffic.Rpc.Notifications.{JsonRpcNotificationSubscription}
use codex_python_sdk_unoffic.Rpc.Notifications.Closing.{ended_by, close-ended}
use codex_python_sdk_unoffic.Rpc.ServerRequests.Closing.{IsClosed, close-IsClosed}
use codex_python_sdk_unoffic.Rpc.Dispatcher.{
  JsonRpcBackgroundDispatcher, ended, Read, envelope, end_of_stream, read_error, task_cancelled,
  dispatch_envelope, dispatch_response, dispatch_request, dispatch_notification, ignore_late,
  fail_dispatch, on_exception, end_task, Dispatched, conclude, dispatch_round, transport_closed,
}
use codex_python_sdk_unoffic.Rpc.Dispatcher.Runs.{
  IsSound, dispatch_envelope-IsSound, fail_dispatch-IsSound,
}

-- the error that an outcome of a dispatch raises
abbrev pub raised_by : Outcome (Unit {0}) → Option RpcException
raised_by (returned u) = none
raised_by (raised exc) = some exc

-- the connection's end, as its users see it: nobody waits, nothing is subscribed, and the failure
-- was reported once
pub record IsShut (before after : JsonRpcBackgroundDispatcher) (exc : RpcException) : Type 0 where
  pub task_ended : after.dispatch_task ≡ ended
  pub no_waiter : after.requests.pending_requests ≡ []
  pub waiters_failed :
      (i : JsonRpcId) (p : PendingJsonRpcRequest)
      → Dict.get i before.requests.pending_requests ≡ some p
      → future_state before.requests p.future ≡ some FutureState.waiting
      → future_state after.requests p.future ≡ some (FutureState.exception exc)
  pub bus_closed : after.notifications.closed ≡ true
  pub bus_empty : after.notifications.registered ≡ []
  pub bus_ended :
      (i : ℕ) (s : JsonRpcNotificationSubscription)
      → mem i before.notifications.registered ≡ true
      → Dict.get i before.notifications.objects ≡ some s
      → s.closed ≡ false
      → Dict.get i after.notifications.objects ≡ some (ended_by s (some exc))
  pub router : IsClosed before.server_requests after.server_requests (some exc)
  pub reported : after.fatal_errors ≡ before.fatal_errors ++ exc ∷ []

fail_dispatch-IsShut :
    (d : JsonRpcBackgroundDispatcher) (exc : RpcException)
    → IsSound d
    → IsShut d (end_task (fail_dispatch d exc)) exc
unfolding fail_dispatch
fail_dispatch-IsShut d exc v =
    let failed = fail_all_lem d.requests exc FinalizedRequestStatus.failed in
    let bus_closed = closed-close d.notifications (some exc) in
    record {
      task_ended = refl;
      no_waiter = failed.0;
      waiters_failed = failed.1;
      bus_closed = bus_closed;
      bus_empty = (fail_dispatch-IsSound d exc v).bus.quiet bus_closed;
      bus_ended = λ i s m h o. close-ended d.notifications (some exc) i s v.bus m h o;
      router = close-IsClosed d.server_requests (some exc);
      reported = refl;
    }

pub exception-IsShut :
    (d : JsonRpcBackgroundDispatcher) (exc : RpcException)
    → IsSound d
    → d.stop_requested ≡ false
    → IsShut d (on_exception d exc) exc
unfolding on_exception
exception-IsShut d exc v go =
    subst (λ b. IsShut d (end_task (if b then d else fail_dispatch d exc)) exc) (sym go)
      (fail_dispatch-IsShut d exc v)

ignore_late-unmatched :
    (i : JsonRpcId) (f : FinalizedRequest)
    → f.status ≢ FinalizedRequestStatus.completed
    → ignore_late (raised (unmatched i (some f))) ≡ returned tt
unfolding ignore_late unmatched
ignore_late-unmatched i f s = ground (arith, s)

ignored :
    (d : JsonRpcBackgroundDispatcher) (x : JsonRpcResponse) (f : FinalizedRequest)
    → Dict.get (response_id x) d.requests.pending_requests ≡ none
    → Dict.get (response_id x) d.requests.finalized_requests ≡ some f
    → f.status ≢ FinalizedRequestStatus.completed
    → dispatch_response d x ≡ (d, returned tt)
unfolding dispatch_response
ignored d x f p h s =
    rw (resolve_response_miss d.requests x p, h)
      (ap (λ o. (d, o)) (ignore_late-unmatched (response_id x) f s))

module _ (sender : JsonRpcResponse → Option RpcException) where
  -- the error that a read leads to
  abbrev pub failure : JsonRpcBackgroundDispatcher → Read → Option RpcException
  failure d (envelope e) = raised_by (dispatch_envelope sender d e).1
  failure d end_of_stream = some transport_closed
  failure d (read_error exc) = some exc
  failure d task_cancelled = none

  -- the state in which it comes up
  abbrev pub routed : JsonRpcBackgroundDispatcher → Read → JsonRpcBackgroundDispatcher
  routed d (envelope e) = (dispatch_envelope sender d e).0
  routed d _ = d

  stop-dispatch :
      (d : JsonRpcBackgroundDispatcher) (e : JsonRpcEnvelope)
      → (dispatch_envelope sender d e).0.stop_requested ≡ d.stop_requested
  unfolding dispatch_envelope dispatch_response dispatch_request dispatch_notification
  stop-dispatch d (JsonRpcEnvelope.success_response s) = refl
  stop-dispatch d (JsonRpcEnvelope.error_response s) = refl
  stop-dispatch d (JsonRpcEnvelope.request q) = refl
  stop-dispatch d (JsonRpcEnvelope.notification n) = refl

  conclude-IsShut :
      (x : Dispatched) (exc : RpcException)
      → IsSound x.0
      → x.0.stop_requested ≡ false
      → raised_by x.1 ≡ some exc
      → IsShut x.0 (conclude sender x) exc
  conclude-IsShut (d, returned u) exc v go e = absurd (ground (arith, e))
  conclude-IsShut (d, raised exc') exc v go e =
      subst (λ o. IsShut d (on_exception d exc') o) (some-injective exc' exc e)
        (exception-IsShut d exc' v go)

  -- A read that fails, at the end of the stream, in the transport, or because its envelope cannot be
  -- routed, ends a dispatcher that was not asked to stop: the error fails every future that still
  -- waited, the bus and the router are closed and their tables of subscriptions emptied, as is the
  -- router's table of requests; each subscription that was open in one of the two tables is closed,
  -- with the error at the end of its queue; and the error is reported once.
  pub fatal_read_shuts :
      (d : JsonRpcBackgroundDispatcher) (r : Read) (exc : RpcException)
      → IsSound d
      → d.stop_requested ≡ false
      → failure d r ≡ some exc
      → IsShut (routed d r) (dispatch_round sender d r) exc
  unfolding dispatch_round
  fatal_read_shuts d (envelope e) exc v go f =
      conclude-IsShut (dispatch_envelope sender d e) exc (dispatch_envelope-IsSound sender d e v)
        (stop-dispatch d e ∙ go) f
  fatal_read_shuts d end_of_stream exc v go f =
      subst (λ b. IsShut d (if b then end_task d else on_exception d transport_closed) exc) (sym go)
        (subst (λ o. IsShut d (on_exception d transport_closed) o)
          (some-injective transport_closed exc f) (exception-IsShut d transport_closed v go))
  fatal_read_shuts d (read_error exc') exc v go f =
      subst (λ o. IsShut d (on_exception d exc') o) (some-injective exc' exc f)
        (exception-IsShut d exc' v go)
  fatal_read_shuts d task_cancelled exc v go f = absurd (ground (arith, f))

  abbrev pub envelope_of : JsonRpcResponse → JsonRpcEnvelope
  envelope_of (JsonRpcResponse.success s) = JsonRpcEnvelope.success_response s
  envelope_of (JsonRpcResponse.error s) = JsonRpcEnvelope.error_response s

  pub late_response_ignored :
      (d : JsonRpcBackgroundDispatcher) (x : JsonRpcResponse) (f : FinalizedRequest)
      → Dict.get (response_id x) d.requests.pending_requests ≡ none
      → Dict.get (response_id x) d.requests.finalized_requests ≡ some f
      → f.status ≢ FinalizedRequestStatus.completed
      → dispatch_round sender d (envelope (envelope_of x)) ≡ d
  unfolding dispatch_round dispatch_envelope
  late_response_ignored d (JsonRpcResponse.success r) f p h s =
      ap (conclude sender) (ignored d (JsonRpcResponse.success r) f p h s)
  late_response_ignored d (JsonRpcResponse.error r) f p h s =
      ap (conclude sender) (ignored d (JsonRpcResponse.error r) f p h s)
