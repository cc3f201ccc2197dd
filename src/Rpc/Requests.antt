-- ===== src/Rpc/Requests.antt =====
-- src/codex_agent_sdk/rpc/router.py: request ids, waiters, and the
-- correlation of responses with requests.
--
-- Every method here runs from its call to its end with no other task in between: the body of each
-- `async with self._lock` holds no other `await`, so a lock is never contended and never
-- suspends. What other tasks do between two calls is any sequence of the operations, and
-- `cancel_waiter` for a caller that cancels the future it was handed.
pub mod History
pub mod Invariant
pub mod Kept
pub mod Runs
pub mod Settlement
pub mod Registration
pub mod FailAll
pub mod Correlation
use codex_python_sdk_unoffic.Common.{
  ℕ, ℤ, String, Bool, true, false, Option, none, some, List, [], ◌∷◌, ◌++◌, if◌then◌else◌, int_ltb,
  int_suc, ltb, ◌||◌, length, get_elem?, set,
}
use codex_python_sdk_unoffic.Common.Dict
use codex_python_sdk_unoffic.Common.Dict.{Dict}
use codex_python_sdk_unoffic.Json.{Json}
use codex_python_sdk_unoffic.Errors.{JsonRpcError, map_jsonrpc_error}
use codex_python_sdk_unoffic.Rpc.Envelope.{
  JsonRpcId, id_eq, JsonRpcSuccessResponse, JsonRpcErrorResponse, JsonRpcErrorObject,
}

pub data FinalizedRequestStatus : Type 0 where
  completed cancelled timed_out closed failed : FinalizedRequestStatus

-- What a call can raise or a waiter can be failed with. `external` is an exception that comes
-- from outside the registry: the transport's, the handler's, the standard library's.
pub data RpcException : Type 0 where
  rpc : JsonRpcError → RpcException
  duplicate_request_id : JsonRpcId → String → RpcException
  unknown_response_id : JsonRpcId → RpcException
  duplicate_response : JsonRpcId → String → RpcException
  late_response : JsonRpcId → FinalizedRequestStatus → String → RpcException
  notification_overflow : ℕ → Option String → Option String → Option String → RpcException
  client_state : String → RpcException
  duplicate_server_request_id : JsonRpcId → String → RpcException
  unknown_server_request_id : JsonRpcId → RpcException
  server_request_already_responded : JsonRpcId → String → RpcException
  request_timeout : String → JsonRpcId → RpcException
  external : String → RpcException

-- The state of an `asyncio.Future`.
pub data FutureState : Type 0 where
  waiting cancelled : FutureState
  result : Json → FutureState
  exception : RpcException → FutureState

abbrev pub is_done : FutureState → Bool
is_done FutureState.waiting = false
is_done _ = true

-- The future is a handle into the heap of futures, which the registry shares with its callers.
pub record PendingJsonRpcRequest : Type 0 where
  pub request_id : JsonRpcId
  pub method : String
  pub future : ℕ

pub record FinalizedRequest : Type 0 where
  pub method : String
  pub status : FinalizedRequestStatus

pub record JsonRpcRequestRegistry : Type 0 where
  pub last_request_id : ℤ
  pub finalized_history_limit : ℕ
  pub pending_requests : Dict JsonRpcId PendingJsonRpcRequest
  pub finalized_requests : Dict JsonRpcId FinalizedRequest
  pub futures : List FutureState

pub data Outcome {ℓ} (A : Type ℓ) : Type ℓ where
  returned : A → Outcome A
  raised : RpcException → Outcome A

abbrev pub empty : ℤ → ℕ → JsonRpcRequestRegistry
empty start_at limit = record {
  last_request_id = start_at;
  finalized_history_limit = limit;
  pending_requests = [];
  finalized_requests = [];
  futures = [];
}

-- `none` for the `ValueError` of a limit that is not positive
unfoldable pub init : ℤ → ℕ → Option JsonRpcRequestRegistry
init start_at limit = if ltb 0 limit then some (empty start_at limit) else none

abbrev pub future_state : JsonRpcRequestRegistry → ℕ → Option FutureState
future_state r h = get_elem? r.futures h

abbrev future_done : JsonRpcRequestRegistry → ℕ → Bool
future_done r h = elim (future_state r h) [ none ↦ true | some f ↦ is_done f ]

abbrev pub settle : JsonRpcRequestRegistry → ℕ → FutureState → JsonRpcRequestRegistry
settle r h f = record r { futures = set r.futures h f }

-- `if not pending.future.done(): <settle>`
unfoldable pub settle_waiting : JsonRpcRequestRegistry → ℕ → FutureState → JsonRpcRequestRegistry
settle_waiting r h f = if future_done r h then r else settle r h f

-- `JsonRpcRequestIdAllocator.next_id`: the advance
unfoldable pub next_id : JsonRpcRequestRegistry → ℤ
next_id r = int_suc r.last_request_id

unfoldable pub observe : JsonRpcRequestRegistry → JsonRpcId → JsonRpcRequestRegistry
observe r (JsonRpcId.int n) =
    if int_ltb r.last_request_id n then record r { last_request_id = n } else r
observe r _ = r

-- the id to use, and the registry with its allocator moved
unfoldable pub allocate : JsonRpcRequestRegistry → JsonRpcId → JsonRpcRequestRegistry × JsonRpcId
unfolding next_id observe
allocate r JsonRpcId.null = (record r { last_request_id = next_id r }, JsonRpcId.int (next_id r))
allocate r request_id = (observe r request_id, request_id)

abbrev pub is_taken : JsonRpcRequestRegistry → JsonRpcId → Bool
is_taken r i = Dict.has i r.pending_requests || Dict.has i r.finalized_requests

-- `loop.create_future()`
abbrev create_future : JsonRpcRequestRegistry → JsonRpcRequestRegistry
create_future r = record r { futures = r.futures ++ FutureState.waiting ∷ [] }

-- the rest of `register_request`: the future is made before the id is tested
unfoldable pub admit :
    JsonRpcRequestRegistry
    → String
    → JsonRpcId
    → JsonRpcRequestRegistry × Outcome PendingJsonRpcRequest
admit r method i =
    let pending : PendingJsonRpcRequest = record {
      request_id = i;
      method = method;
      future = length r.futures;
    } in
    let made = create_future r in
    if is_taken r i then (made, raised (duplicate_request_id i method)) else (
      record made { pending_requests = Dict.put i pending r.pending_requests },
      returned pending,
    )

-- `null` stands for `request_id=None`
unfoldable pub register_request :
    JsonRpcRequestRegistry
    → String
    → JsonRpcId
    → JsonRpcRequestRegistry × Outcome PendingJsonRpcRequest
unfolding admit allocate
register_request r method request_id = let (r', i) = allocate r request_id in admit r' method i

-- `while len(...) > limit: popitem(last=False)`
unfoldable pub evict : ℕ → Dict JsonRpcId FinalizedRequest → Dict JsonRpcId FinalizedRequest
evict limit [] = []
evict limit (entry ∷ d) =
    let rest = evict limit d in if ltb limit (length (entry ∷ d)) then rest else entry ∷ d

unfoldable pub remember_finalized_request :
    JsonRpcRequestRegistry → JsonRpcId → String → FinalizedRequestStatus → JsonRpcRequestRegistry
unfolding evict
remember_finalized_request r i method status = record r {
  finalized_requests =
      evict r.finalized_history_limit
        (Dict.put i (record { method = method; status = status }) r.finalized_requests);
}

abbrev pop_pending : JsonRpcRequestRegistry → JsonRpcId → JsonRpcRequestRegistry
pop_pending r i = record r { pending_requests = Dict.remove i r.pending_requests }

-- `_pop_pending_request`, and the locked part of `resolve_response`
unfoldable pub pop_pending_request :
    JsonRpcRequestRegistry
    → JsonRpcId
    → FinalizedRequestStatus
    → JsonRpcRequestRegistry × Option PendingJsonRpcRequest
unfolding remember_finalized_request
pop_pending_request r i status = elim (Dict.get i r.pending_requests) [
  | none ↦ (r, none)
  | some p ↦ (remember_finalized_request (pop_pending r i) i p.method status, some p)
]

pub data JsonRpcResponse : Type 0 where
  success : JsonRpcSuccessResponse → JsonRpcResponse
  error : JsonRpcErrorResponse → JsonRpcResponse

abbrev pub response_id : JsonRpcResponse → JsonRpcId
response_id (success s) = s.id
response_id (error s) = s.id

abbrev data_if_present : JsonRpcErrorObject → Json
data_if_present e = if e.data_present then e.data_value else Json.null

-- what the waiter gets
unfoldable pub settlement : JsonRpcResponse → String → FutureState
settlement (success s) method = FutureState.result s.result
settlement (error s) method = FutureState.exception (
    rpc
      (map_jsonrpc_error s.error.code s.error.message (data_if_present s.error) (some method) s.id))

-- no waiter has the id
unfoldable pub unmatched : JsonRpcId → Option FinalizedRequest → RpcException
unmatched i none = unknown_response_id i
unmatched i (some f) = elim f.status [
  | FinalizedRequestStatus.completed ↦ duplicate_response i f.method
  | _ ↦ late_response i f.status f.method
]

-- the part of `resolve_response` after the lock
unfoldable pub deliver :
    JsonRpcRequestRegistry
    → JsonRpcResponse
    → Option PendingJsonRpcRequest
    → JsonRpcRequestRegistry × Outcome (Unit {0})
deliver r response none = (
  r,
  raised (unmatched (response_id response) (Dict.get (response_id response) r.finalized_requests)),
)
deliver r response (some p) =
    if future_done r p.future
    then (r, raised (duplicate_response (response_id response) p.method))
    else (settle r p.future (settlement response p.method), returned tt)

unfoldable pub resolve_response :
    JsonRpcRequestRegistry → JsonRpcResponse → JsonRpcRequestRegistry × Outcome (Unit {0})
resolve_response r response =
    let (r', p) = pop_pending_request r (response_id response) FinalizedRequestStatus.completed in
    deliver r' response p

-- the common part of `cancel_request` and `fail_request`
unfoldable pub release :
    JsonRpcRequestRegistry
    → JsonRpcId
    → FinalizedRequestStatus
    → FutureState
    → JsonRpcRequestRegistry × Bool
release r i reason f =
    let (r', found) = pop_pending_request r i reason in
    elim found [ none ↦ (r', false) | some p ↦ (settle_waiting r' p.future f, true) ]

unfoldable pub cancel_request :
    JsonRpcRequestRegistry → JsonRpcId → FinalizedRequestStatus → JsonRpcRequestRegistry × Bool
cancel_request r i reason = release r i reason FutureState.cancelled

unfoldable pub fail_request :
    JsonRpcRequestRegistry
    → JsonRpcId
    → RpcException
    → FinalizedRequestStatus
    → JsonRpcRequestRegistry × Bool
fail_request r i exc reason = release r i reason (FutureState.exception exc)

-- the two loops of `fail_all`, over the values of the cleared dict
unfoldable pub remember_all :
    JsonRpcRequestRegistry
    → List (JsonRpcId × PendingJsonRpcRequest)
    → FinalizedRequestStatus
    → JsonRpcRequestRegistry
remember_all r [] reason = r
remember_all r ((_, p) ∷ rest) reason =
    remember_all (remember_finalized_request r p.request_id p.method reason) rest reason

unfoldable pub fail_waiters :
    JsonRpcRequestRegistry
    → List (JsonRpcId × PendingJsonRpcRequest)
    → RpcException
    → JsonRpcRequestRegistry
fail_waiters r [] exc = r
fail_waiters r ((_, p) ∷ rest) exc =
    fail_waiters (settle_waiting r p.future (FutureState.exception exc)) rest exc

unfoldable pub fail_all :
    JsonRpcRequestRegistry → RpcException → FinalizedRequestStatus → JsonRpcRequestRegistry
unfolding remember_all fail_waiters
fail_all r exc reason =
    fail_waiters (remember_all (record r { pending_requests = [] }) r.pending_requests reason)
      r.pending_requests exc

-- A caller cancels the future that it was handed. The registry's tables stay.
unfoldable pub cancel_waiter : JsonRpcRequestRegistry → ℕ → JsonRpcRequestRegistry
unfolding settle_waiting
cancel_waiter r h = settle_waiting r h FutureState.cancelled
