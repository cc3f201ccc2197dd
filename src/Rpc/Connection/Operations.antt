-- ===== src/Rpc/Connection/Operations.antt =====
-- src/codex_agent_sdk/rpc/connection.py: each operation leaves a closed connection closed.
use codex_python_sdk_unoffic.Common.{
  ℤ, String, false, Option, none, some, ◌≡◌, arith, inl, inr, Bool-cases, Option-cases,
}
use codex_python_sdk_unoffic.Json.{Json}
use codex_python_sdk_unoffic.Rpc.Envelope.{JsonRpcId, JsonRpcRequest}
use codex_python_sdk_unoffic.Rpc.Requests.{
  RpcException, FinalizedRequestStatus, FutureState, cancel_request, fail_request,
}
use codex_python_sdk_unoffic.Rpc.ServerRequests.{HandlerOutcome}
use codex_python_sdk_unoffic.Rpc.Dispatcher
use codex_python_sdk_unoffic.Rpc.Dispatcher.{
  JsonRpcBackgroundDispatcher, Read, envelope, end_of_stream, read_error, task_cancelled,
  Dispatched, conclude, dispatch_round, dispatch_envelope, dispatch_response, dispatch_notification,
  dispatch_request, on_exception, fail_dispatch, transport_closed,
}
use codex_python_sdk_unoffic.Rpc.Connection.{
  JsonRpcConnection, closed_error, Answer, unless_closed, fail_connection, fail_with, close_once,
  begin_start, after_start, begin_request, Written, written, write_failed, write_cancelled,
  after_write, after_notify, on_timeout, on_cancelled, begin_respond, begin_reject, begin_answer,
  after_response, after_close, reports, unfinished,
}
use codex_python_sdk_unoffic.Rpc.Requests.{PendingJsonRpcRequest}
use codex_python_sdk_unoffic.Rpc.Connection.Routers.{
  release-IsIdle, respond-Same, reject-Same, finish-Same,
}
use codex_python_sdk_unoffic.Rpc.Connection.Closed.{
  IsDown, Follows, Follows-refl, Follows-trans, inside-Follows, open_Follows, shut-Follows,
  requests-Follows, router-Follows,
}

pub fail_connection-Follows :
    (c : JsonRpcConnection) (exc : RpcException) → Follows c (fail_connection c exc)
unfolding fail_connection
fail_connection-Follows c exc = elim (Bool-cases c.is_closed) [
  | inl h ↦ simp h (Follows-refl c)
  | inr o ↦ simp o (
      shut-Follows c (record c { terminal_error = some exc }) exc FinalizedRequestStatus.failed
        (some exc) o)
]

pub fail_with-Follows :
    (c : JsonRpcConnection) (e : Option RpcException) → Follows c (fail_with c e)
unfolding fail_with
fail_with-Follows c none = Follows-refl c
fail_with-Follows c (some exc) = fail_connection-Follows c exc

stop-IsDown : (d : JsonRpcBackgroundDispatcher) → IsDown d → IsDown (Dispatcher.stop d)
unfolding Dispatcher.stop
stop-IsDown d v = record { idle = v.idle; bus = v.bus; router = v.router }

start-IsDown : (d : JsonRpcBackgroundDispatcher) → IsDown d → IsDown (Dispatcher.start d)
unfolding Dispatcher.start
start-IsDown d v = record {
  idle = ground (arith, v.idle);
  bus = ground (arith, v.bus);
  router = ground (arith, v.router);
}

pub close_once-Follows : (c : JsonRpcConnection) → Follows c (close_once c)
unfolding close_once
close_once-Follows c = elim (Bool-cases c.is_closed) [
  | inl h ↦ simp h (Follows-refl c)
  | inr o ↦ simp o (shut-Follows c c _ FinalizedRequestStatus.closed none o)
]

pub after_close-Follows : (c : JsonRpcConnection) → Follows c (after_close c)
unfolding after_close
after_close-Follows c = inside-Follows c (Dispatcher.stop c.dispatcher) (stop-IsDown c.dispatcher)

open_of : (c : JsonRpcConnection) → closed_error c ≡ none → c.is_closed ≡ false
unfolding closed_error
open_of c h = ground (arith, h)

pub unless_closed-Follows :
    {A : Type 0} (c : JsonRpcConnection) (body : Answer A)
    → (c.is_closed ≡ false → Follows c body.0)
    → Follows c (unless_closed c body).0
unfolding unless_closed
unless_closed-Follows c body h = elim (Option-cases (closed_error c)) [
  | inl ok ↦ rw (ok, unless_closed) (h (open_of c ok))
  | inr (exc, e) ↦ rw (e, unless_closed) (Follows-refl c)
]

pub begin_start-Follows : (c : JsonRpcConnection) → Follows c (begin_start c).0
unfolding begin_start
begin_start-Follows c = unless_closed-Follows c _ (λ _. Follows-refl c)

pub after_start-Follows :
    (c : JsonRpcConnection) (e : Option RpcException) → Follows c (after_start c e).0
unfolding after_start
after_start-Follows c none =
    inside-Follows c (Dispatcher.start c.dispatcher) (start-IsDown c.dispatcher)
after_start-Follows c (some exc) = Follows-refl c

pub begin_request-Follows :
    (c : JsonRpcConnection) (method : String) → Follows c (begin_request c method).0
unfolding begin_request
begin_request-Follows c method = unless_closed-Follows c _ (λ o. open_Follows c _ o o)

pub after_write-Follows :
    (c : JsonRpcConnection) (i : JsonRpcId) (w : Written) → Follows c (after_write c i w)
unfolding after_write cancel_request fail_request
after_write-Follows c i written = Follows-refl c
after_write-Follows c i (write_failed exc) =
    Follows-trans
      (requests-Follows c _ (
        release-IsIdle c.dispatcher.requests i FinalizedRequestStatus.failed
          (FutureState.exception exc)))
      (fail_connection-Follows _ exc)
after_write-Follows c i write_cancelled =
    requests-Follows c _ (
      release-IsIdle c.dispatcher.requests i FinalizedRequestStatus.cancelled FutureState.cancelled)

pub after_notify-Follows : (c : JsonRpcConnection) (w : Written) → Follows c (after_notify c w)
unfolding after_notify
after_notify-Follows c written = Follows-refl c
after_notify-Follows c (write_failed exc) = fail_connection-Follows c exc
after_notify-Follows c write_cancelled = Follows-refl c

pub on_timeout-Follows :
    (c : JsonRpcConnection) (p : PendingJsonRpcRequest) → Follows c (on_timeout c p).0
unfolding on_timeout cancel_request
on_timeout-Follows c p = requests-Follows c _ (
    release-IsIdle c.dispatcher.requests p.request_id FinalizedRequestStatus.timed_out
      FutureState.cancelled)

pub on_cancelled-Follows : (c : JsonRpcConnection) (i : JsonRpcId) → Follows c (on_cancelled c i)
unfolding on_cancelled cancel_request
on_cancelled-Follows c i =
    requests-Follows c _ (
      release-IsIdle c.dispatcher.requests i FinalizedRequestStatus.cancelled FutureState.cancelled)

pub begin_respond-Follows :
    (c : JsonRpcConnection) (i : JsonRpcId) (v : Json) → Follows c (begin_respond c i v).0
unfolding begin_respond
begin_respond-Follows c i v =
    unless_closed-Follows c _
      (λ _. router-Follows c _ (respond-Same unfinished c.dispatcher.server_requests i v))

pub begin_reject-Follows :
    (c : JsonRpcConnection) (i : JsonRpcId) (code : ℤ) (m : String) (v : Json)
    → Follows c (begin_reject c i code m v).0
unfolding begin_reject
begin_reject-Follows c i code m v =
    unless_closed-Follows c _
      (λ _. router-Follows c _ (reject-Same unfinished c.dispatcher.server_requests i code m v))

pub begin_answer-Follows :
    (c : JsonRpcConnection) (q : JsonRpcRequest) (o : HandlerOutcome)
    → Follows c (begin_answer c q o)
unfolding begin_answer
begin_answer-Follows c q o =
    router-Follows c _ (finish-Same unfinished c.dispatcher.server_requests q o)

pub after_response-Follows :
    (c : JsonRpcConnection) (e : Option RpcException) → Follows c (after_response c e)
unfolding after_response
after_response-Follows c e = fail_with-Follows c e

pub reports-Follows :
    (c : JsonRpcConnection) (d : JsonRpcBackgroundDispatcher)
    → (IsDown c.dispatcher → IsDown d)
    → Follows c (reports c d)
unfolding reports
reports-Follows c d keep = Follows-trans (inside-Follows c d keep) (fail_with-Follows _ _)
