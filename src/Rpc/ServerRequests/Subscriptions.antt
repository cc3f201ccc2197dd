-- ===== src/Rpc/ServerRequests/Subscriptions.antt =====
-- src/codex_agent_sdk/rpc/router.py: what a consumer does with its subscription to the router.
use codex_python_sdk_unoffic.Common.{ℕ, nat_eq, none, some, without}
use codex_python_sdk_unoffic.Common.Dict
use codex_python_sdk_unoffic.Rpc.Envelope.{JsonRpcRequest}
use codex_python_sdk_unoffic.Rpc.Stream
use codex_python_sdk_unoffic.Rpc.ServerRequests.{
  ServerRequestSubscription, ServerRequestRouter, close_from_router,
}

-- `_unsubscribe`; the dictionary holds weak references, so an entry also leaves it when the consumer
-- drops its subscription
unfoldable pub unsubscribe : ServerRequestRouter → ℕ → ServerRequestRouter
unsubscribe r i = record r { registered = without i r.registered }

abbrev update : ServerRequestRouter → ℕ → ServerRequestSubscription → ServerRequestRouter
update r i s = record r { objects = Dict.put i s r.objects }

-- the subscription's own `close`
unfoldable pub close_subscription : ServerRequestRouter → ℕ → ServerRequestRouter
unfolding unsubscribe
close_subscription r i = elim (Dict.get i r.objects) [
  | none ↦ r
  | some s ↦ update (unsubscribe r i) i (close_from_router s none)
]

take_from : ServerRequestSubscription → Stream.Next JsonRpcRequest → ServerRequestSubscription
take_from s (Stream.item a rest) = record s { stream = rest }
take_from s _ = s

-- the consumer asks for the next item
unfoldable pub take_next : ServerRequestRouter → ℕ → ServerRequestRouter
unfolding take_from
take_next r i = elim (Dict.get i r.objects) [
  | none ↦ r
  | some s ↦ update r i (take_from s (Stream.next_item s.stream))
]
