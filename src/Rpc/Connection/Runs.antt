-- ===== src/Rpc/Connection/Runs.antt =====
-- src/codex_agent_sdk/rpc/connection.py: every sequence of steps of a connection.
use codex_python_sdk_unoffic.Common.{
  ℕ, ℤ, String, true, Option, none, some, ◌≡◌, refl, arith, inl, inr, Option-cases,
}
use codex_python_sdk_unoffic.Json.{Json}
use codex_python_sdk_unoffic.Rpc.Envelope.{JsonRpcId, JsonRpcRequest}
use codex_python_sdk_unoffic.Rpc.Requests.{
  RpcException, JsonRpcRequestRegistry, PendingJsonRpcRequest, raised,
}
use codex_python_sdk_unoffic.Rpc.Filter.{SubscriptionFilter}
use codex_python_sdk_unoffic.Rpc.Notifications
use codex_python_sdk_unoffic.Rpc.Notifications.{JsonRpcNotificationBus}
use codex_python_sdk_unoffic.Rpc.ServerRequests
use codex_python_sdk_unoffic.Rpc.ServerRequests.{ServerRequestRouter, HandlerOutcome}
use codex_python_sdk_unoffic.Rpc.ServerRequests.Subscriptions.{
  close_subscription, take_next, unsubscribe,
}
use codex_python_sdk_unoffic.Rpc.Dispatcher.{Read}
use codex_python_sdk_unoffic.Rpc.Connection.{
  JsonRpcConnection, new_connection, with_router, already_closed, closed_error, unless_closed,
  close_once, after_close, begin_start, after_start, begin_request, Written, after_write,
  after_notify, on_timeout, on_cancelled, begin_respond, begin_reject, begin_answer, after_response,
  on_read, routing_failed,
}
use codex_python_sdk_unoffic.Rpc.Connection.Routers.{Same}
use codex_python_sdk_unoffic.Rpc.Connection.Closed.{
  IsDown, Follows, Follows-refl, Follows-trans, Follows-IsSane, notifications-Follows,
  router-Follows,
}
use codex_python_sdk_unoffic.Rpc.Connection.Operations.{
  close_once-Follows, after_close-Follows, begin_start-Follows, after_start-Follows,
  begin_request-Follows, after_write-Follows, after_notify-Follows, on_timeout-Follows,
  on_cancelled-Follows, begin_respond-Follows, begin_reject-Follows, begin_answer-Follows,
  after_response-Follows,
}
use codex_python_sdk_unoffic.Rpc.Connection.Rounds.{on_read-Follows, routing_failed-Follows}

-- the calls of the router's own users
pub data RouterCall (r : ServerRequestRouter) : ServerRequestRouter → Type 0 where
  subscribed : (f : SubscriptionFilter) → RouterCall r (ServerRequests.subscribe r f).0
  unsubscribed : (i : ℕ) → RouterCall r (close_subscription r i)
  forgotten : (i : ℕ) → RouterCall r (unsubscribe r i)
  taken : (i : ℕ) → RouterCall r (take_next r i)
  registered : (m : String) (h : ℕ) → RouterCall r (ServerRequests.register_handler r m h)
  removed : (m : String) → RouterCall r (ServerRequests.remove_handler r m)
  fallback : (h : Option ℕ) → RouterCall r (ServerRequests.set_fallback_handler r h)

RouterCall-Same : {r r' : ServerRequestRouter} → RouterCall r r' → Same r r'
unfolding ServerRequests.subscribe close_subscription unsubscribe take_next
    ServerRequests.register_handler ServerRequests.remove_handler
    ServerRequests.set_fallback_handler
RouterCall-Same (subscribed f) = ground arith
RouterCall-Same (unsubscribed i) = ground arith
RouterCall-Same (forgotten i) = refl
RouterCall-Same (taken i) = ground arith
RouterCall-Same (registered m h) = refl
RouterCall-Same (removed m) = refl
RouterCall-Same (fallback h) = refl

-- the calls of the bus's own users
pub data BusCall (bus : JsonRpcNotificationBus) : JsonRpcNotificationBus → Type 0 where
  subscribed :
      (f : SubscriptionFilter) (limit : Option ℕ) (bus' : JsonRpcNotificationBus) (i : ℕ)
      → Notifications.subscribe bus f limit ≡ some (bus', i)
      → BusCall bus bus'
  unsubscribed : (i : ℕ) → BusCall bus (Notifications.close_subscription bus i)
  taken : (i : ℕ) → BusCall bus (Notifications.take_next bus i)
  forgotten : (i : ℕ) → BusCall bus (Notifications.forget bus i)

BusCall-closed : {bus bus' : JsonRpcNotificationBus} → BusCall bus bus' → bus'.closed ≡ bus.closed
unfolding Notifications.subscribe Notifications.close_subscription Notifications.take_next
    Notifications.forget
BusCall-closed (subscribed f limit bus' i e) = ground (arith, e)
BusCall-closed (unsubscribed i) = ground arith
BusCall-closed (taken i) = ground arith
BusCall-closed (forgotten i) = refl

-- what a closed connection raises
abbrev pub refusal : Option RpcException → RpcException
refusal none = already_closed
refusal (some exc) = exc

raises_refusal :
    (c : JsonRpcConnection) → c.is_closed ≡ true → closed_error c ≡ some (refusal c.terminal_error)
unfolding closed_error
raises_refusal c h = elim (Option-cases c.terminal_error) [
  | inl clean ↦ ground (arith, clean, h)
  | inr (exc, e) ↦ ground (arith, e)
]

refused :
    (c : JsonRpcConnection) (method : String)
    → c.is_closed ≡ true
    → begin_request c method ≡ (c, raised (refusal c.terminal_error))
unfolding begin_request unless_closed
refused c method h = rw (raises_refusal c h, begin_request, unless_closed) refl

-- what a coroutine of the connection does between two suspensions
pub data Step (c : JsonRpcConnection) : JsonRpcConnection → Type 0 where
  start_called : Step c (begin_start c).0
  started : (e : Option RpcException) → Step c (after_start c e).0
  requested : (method : String) → Step c (begin_request c method).0
  request_written : (i : JsonRpcId) (w : Written) → Step c (after_write c i w)
  notified : (w : Written) → Step c (after_notify c w)
  timed_out : (p : PendingJsonRpcRequest) → Step c (on_timeout c p).0
  cancelled : (i : JsonRpcId) → Step c (on_cancelled c i)
  responded : (i : JsonRpcId) (v : Json) → Step c (begin_respond c i v).0
  rejected :
      (i : JsonRpcId) (code : ℤ) (m : String) (v : Json) → Step c (begin_reject c i code m v).0
  answered : (q : JsonRpcRequest) (o : HandlerOutcome) → Step c (begin_answer c q o)
  response_written : (e : Option RpcException) → Step c (after_response c e)
  was_read : (r : Read) → Step c (on_read c r)
  read_failed : (exc : RpcException) → Step c (routing_failed c exc)
  was_closed : Step c (close_once c)
  close_ended : Step c (after_close c)
  on_bus :
      {bus : JsonRpcNotificationBus}
      → BusCall c.dispatcher.notifications bus
      → Step c (record c { dispatcher = record c.dispatcher { notifications = bus } })
  on_router :
      {r : ServerRequestRouter}
      → RouterCall c.dispatcher.server_requests r
      → Step c (with_router c r)

pub data Reach (c : JsonRpcConnection) : JsonRpcConnection → Type 0 where
  here : Reach c c
  next : {d e : JsonRpcConnection} → Reach c d → Step d e → Reach c e

Step-Follows : {c d : JsonRpcConnection} → Step c d → Follows c d
Step-Follows {c} start_called = begin_start-Follows c
Step-Follows {c} (started e) = after_start-Follows c e
Step-Follows {c} (requested method) = begin_request-Follows c method
Step-Follows {c} (request_written i w) = after_write-Follows c i w
Step-Follows {c} (notified w) = after_notify-Follows c w
Step-Follows {c} (timed_out p) = on_timeout-Follows c p
Step-Follows {c} (cancelled i) = on_cancelled-Follows c i
Step-Follows {c} (responded i v) = begin_respond-Follows c i v
Step-Follows {c} (rejected i code m v) = begin_reject-Follows c i code m v
Step-Follows {c} (answered q o) = begin_answer-Follows c q o
Step-Follows {c} (response_written e) = after_response-Follows c e
Step-Follows {c} (was_read r) = on_read-Follows c r
Step-Follows {c} (read_failed exc) = routing_failed-Follows c exc
Step-Follows {c} was_closed = close_once-Follows c
Step-Follows {c} close_ended = after_close-Follows c
Step-Follows {c} (on_bus {bus} call) = notifications-Follows c bus (BusCall-closed call)
Step-Follows {c} (on_router {r} call) = router-Follows c r (RouterCall-Same call)

Reach-Follows : {c d : JsonRpcConnection} → Reach c d → Follows c d
Reach-Follows {c} here = Follows-refl c
Reach-Follows (next path step) = Follows-trans (Reach-Follows path) (Step-Follows step)

-- A connection that was closed, for good or by a failure, and whatever came after.
pub record StaysClosed (b c : JsonRpcConnection) : Type 0 where
  pub is_closed : c.is_closed ≡ true
  pub same_error : c.terminal_error ≡ b.terminal_error
  pub down : IsDown c.dispatcher
  pub refuses : (method : String) → begin_request c method ≡ (c, raised (refusal b.terminal_error))

-- Once a connection has been closed, by its user or by a failure, every later state that its
-- operations, its dispatcher's reads, the ends of its writes and of the transport's close and its
-- subscribers' calls reach, in any order, is closed with the same terminal error: no request waits,
-- the bus and the router are closed, and a new request is refused with that error, or as closed if
-- there is none, and changes nothing.
pub closed_for_good :
    (requests : JsonRpcRequestRegistry) (notifications : JsonRpcNotificationBus)
    (server_requests : ServerRequestRouter) {b c : JsonRpcConnection}
    → Reach (new_connection requests notifications server_requests) b
    → b.is_closed ≡ true
    → Reach b c
    → StaysClosed b c
closed_for_good requests notifications server_requests {b} {c} before h after =
    let f = Reach-Follows after in
    let sane = Follows-IsSane (Reach-Follows before) (λ closed. absurd (ground (arith, closed))) in
    record {
      is_closed = f.stays h;
      same_error = f.error h;
      down = f.down h (sane h);
      refuses = λ method. rw (← f.error h) (refused c method (f.stays h));
    }
