-- ===== src/Rpc/Connection/Closed.antt =====
-- src/codex_agent_sdk/rpc/connection.py: what it is for a connection to be closed in all of its parts.
use codex_python_sdk_unoffic.Common.{true, false, Option, ◌≡◌, refl, ◌∙◌, inl, inr, Bool-cases}
use codex_python_sdk_unoffic.Rpc.Requests.{
  RpcException, FinalizedRequestStatus, JsonRpcRequestRegistry,
}
use codex_python_sdk_unoffic.Rpc.Requests.FailAll.{fail_all_lem}
use codex_python_sdk_unoffic.Rpc.Notifications.{JsonRpcNotificationBus}
use codex_python_sdk_unoffic.Rpc.Notifications.Runs.{closed-close}
use codex_python_sdk_unoffic.Rpc.ServerRequests.{ServerRequestRouter}
use codex_python_sdk_unoffic.Rpc.Dispatcher.{JsonRpcBackgroundDispatcher}
use codex_python_sdk_unoffic.Rpc.ServerRequests.Closing.{close-IsClosed}
use codex_python_sdk_unoffic.Rpc.Connection.{JsonRpcConnection, shut, with_router, with_requests}
use codex_python_sdk_unoffic.Rpc.Connection.Routers.{IsIdle, Same}

-- nobody waits, and both ways in are closed
pub record IsDown (d : JsonRpcBackgroundDispatcher) : Type 0 where
  pub idle : IsIdle d.requests
  pub bus : d.notifications.closed ≡ true
  pub router : d.server_requests.closed ≡ true

-- a closed connection is closed in all of its parts
abbrev pub IsSane : JsonRpcConnection → Type 0
IsSane c = c.is_closed ≡ true → IsDown c.dispatcher

-- A later state: closed, with the same error, if the earlier was, and sane if it was open.
pub record Follows (c c' : JsonRpcConnection) : Type 0 where
  pub stays : c.is_closed ≡ true → c'.is_closed ≡ true
  pub error : c.is_closed ≡ true → c'.terminal_error ≡ c.terminal_error
  pub down : c.is_closed ≡ true → IsDown c.dispatcher → IsDown c'.dispatcher
  pub closing : c.is_closed ≡ false → IsSane c'

pub Follows-refl : (c : JsonRpcConnection) → Follows c c
Follows-refl c = record {
  stays = λ h. h;
  error = λ _. refl;
  down = λ _ d. d;
  closing = λ o h. absurd (cc (o, h));
}

pub Follows-IsSane : {c c' : JsonRpcConnection} → Follows c c' → IsSane c → IsSane c'
Follows-IsSane {c} f s h = elim (Bool-cases c.is_closed) [
  | inl closed ↦ f.down closed (s closed)
  | inr o ↦ f.closing o h
]

pub Follows-trans : {c c' c'' : JsonRpcConnection} → Follows c c' → Follows c' c'' → Follows c c''
Follows-trans f g = record {
  stays = λ h. g.stays (f.stays h);
  error = λ h. g.error (f.stays h) ∙ f.error h;
  down = λ h d. g.down (f.stays h) (f.down h d);
  closing = λ o. Follows-IsSane g (f.closing o);
}

-- an operation that only moves the dispatcher's parts
pub inside-Follows :
    (c : JsonRpcConnection) (d : JsonRpcBackgroundDispatcher)
    → (IsDown c.dispatcher → IsDown d)
    → Follows c (record c { dispatcher = d })
inside-Follows c d keep = record {
  stays = λ h. h;
  error = λ _. refl;
  down = λ _. keep;
  closing = λ o h. absurd (cc (o, h));
}

shut-IsDown :
    (c : JsonRpcConnection) (exc : RpcException) (reason : FinalizedRequestStatus)
    (e : Option RpcException)
    → IsDown (shut c exc reason e).dispatcher
unfolding shut
shut-IsDown c exc reason e = record {
  idle = (fail_all_lem c.dispatcher.requests exc reason).0;
  bus = closed-close c.dispatcher.notifications e;
  router = (close-IsClosed c.dispatcher.server_requests e).closed;
}

-- an open connection that stays open
pub open_Follows :
    (c c' : JsonRpcConnection) → c.is_closed ≡ false → c'.is_closed ≡ false → Follows c c'
open_Follows c c' o o' = record {
  stays = λ h. absurd (cc (o, h));
  error = λ h. absurd (cc (o, h));
  down = λ h. absurd (cc (o, h));
  closing = λ _ h. absurd (cc (o', h));
}

-- what an open connection becomes when it is shut
pub shut-Follows :
    (b c : JsonRpcConnection) (exc : RpcException) (reason : FinalizedRequestStatus)
    (e : Option RpcException)
    → b.is_closed ≡ false
    → Follows b (shut c exc reason e)
shut-Follows b c exc reason e o = record {
  stays = λ h. absurd (cc (o, h));
  error = λ h. absurd (cc (o, h));
  down = λ h. absurd (cc (o, h));
  closing = λ _ _. shut-IsDown c exc reason e;
}

-- an operation that only moves the registry
pub requests-Follows :
    (c : JsonRpcConnection) (r : JsonRpcRequestRegistry)
    → (IsIdle c.dispatcher.requests → IsIdle r)
    → Follows c (with_requests c r)
requests-Follows c r keep =
    inside-Follows c (record c.dispatcher { requests = r })
      (λ d. record { idle = keep d.idle; bus = d.bus; router = d.router })

-- an operation that only moves the bus
pub notifications-Follows :
    (c : JsonRpcConnection) (bus : JsonRpcNotificationBus)
    → bus.closed ≡ c.dispatcher.notifications.closed
    → Follows c (record c { dispatcher = record c.dispatcher { notifications = bus } })
notifications-Follows c bus same =
    inside-Follows c (record c.dispatcher { notifications = bus })
      (λ d. record { idle = d.idle; bus = same ∙ d.bus; router = d.router })

-- an operation that only moves the router
pub router-Follows :
    (c : JsonRpcConnection) (r : ServerRequestRouter)
    → Same c.dispatcher.server_requests r
    → Follows c (with_router c r)
router-Follows c r same =
    inside-Follows c (record c.dispatcher { server_requests = r })
      (λ d. record { idle = d.idle; bus = d.bus; router = same ∙ d.router })
