-- ===== src/Tests/Requests.antt =====
-- The request registry at work: one request, its response, a duplicate, a late response.
use codex_python_sdk_unoffic.Common.{
  ℕ, pos, negsuc, true, false, none, some, [], ◌∷◌, ◌≡◌, ◌≢◌, refl,
}
use codex_python_sdk_unoffic.Common.Dict
use codex_python_sdk_unoffic.Json.{Json}
use codex_python_sdk_unoffic.Errors.{map_jsonrpc_error}
use codex_python_sdk_unoffic.Rpc.Envelope.{JsonRpcId, id_eq}
use codex_python_sdk_unoffic.Rpc.Requests.{
  init, empty, JsonRpcResponse, success, error, rpc, RpcException, duplicate_response,
  late_response, external, returned, raised, FinalizedRequestStatus, FutureState,
  PendingJsonRpcRequest, JsonRpcRequestRegistry, future_state, settlement, register_request,
  resolve_response, cancel_request,
}
use codex_python_sdk_unoffic.Rpc.Requests.Invariant.{IsValid}
use codex_python_sdk_unoffic.Rpc.Requests.Runs.{here, next, registered, resolved, Reach-IsValid}
use codex_python_sdk_unoffic.Rpc.Requests.Settlement.{settled_forever}
use codex_python_sdk_unoffic.Rpc.Requests.Registration.{fresh_id, register_request_fresh}
use codex_python_sdk_unoffic.Rpc.Requests.Correlation.{
  after, resolve_response_hit, resolve_response_twice, cancel_then_resolve,
}

abbrev idle : JsonRpcRequestRegistry
idle = empty (pos 0) 2

abbrev pub first : PendingJsonRpcRequest
first = record { request_id = JsonRpcId.int (pos 1); method = "thread/start"; future = 0 }

abbrev pub busy : JsonRpcRequestRegistry
busy = record {
  last_request_id = pos 1;
  finalized_history_limit = 2;
  pending_requests = (JsonRpcId.int (pos 1), first) ∷ [];
  finalized_requests = [];
  futures = FutureState.waiting ∷ [];
}

abbrev pub reply : JsonRpcResponse
reply = success (record { id = JsonRpcId.int (pos 1); result = Json.text "ok" })

abbrev stray : JsonRpcResponse
stray = success (record { id = JsonRpcId.int (pos 7); result = Json.null })

registers : register_request idle "thread/start" JsonRpcId.null ≡ (busy, returned first)
unfolding register_request Dict.get Dict.put
registers = refl

Reach-IsValid_example : IsValid (register_request idle "thread/start" JsonRpcId.null).0
unfolding init
Reach-IsValid_example =
    Reach-IsValid (pos 0) 2 idle (register_request idle "thread/start" JsonRpcId.null).0 refl
      (next here (registered idle "thread/start" JsonRpcId.null))

pub busy-IsValid : IsValid busy
unfolding init register_request Dict.get Dict.put
busy-IsValid =
    Reach-IsValid (pos 0) 2 idle busy refl
      (next here (registered idle "thread/start" JsonRpcId.null))

-- an error response with a code of overload and no data
abbrev overload_reply : JsonRpcResponse
overload_reply = error (record {
  id = JsonRpcId.int (pos 1);
  error = record {
    code = negsuc 32000;
    message = "busy";
    data_value = Json.text "unused";
    data_present = false;
  };
})

resolve_response_hit_example :
    ((resolve_response busy overload_reply).1 ≡ returned tt)
    × (future_state (after busy overload_reply) 0
        ≡ some (
            FutureState.exception (
              rpc (
                map_jsonrpc_error
                  (negsuc 32000)
                  "busy"
                  Json.null
                  (some "thread/start")
                  (JsonRpcId.int (pos 1))))))
    × ((h : ℕ) → h ≢ 0 → future_state (after busy overload_reply) h ≡ future_state busy h)
    × (Dict.get (JsonRpcId.int (pos 1)) (after busy overload_reply).pending_requests ≡ none)
unfolding Dict.get
resolve_response_hit_example = resolve_response_hit busy overload_reply first busy-IsValid refl refl

resolve_response_twice_example :
    resolve_response (after busy reply) reply
    ≡ (after busy reply, raised (duplicate_response (JsonRpcId.int (pos 1)) "thread/start"))
unfolding Dict.get
resolve_response_twice_example =
    resolve_response_twice busy reply reply first busy-IsValid refl refl refl

cancel_then_resolve_example :
    ((cancel_request busy (JsonRpcId.int (pos 1)) FinalizedRequestStatus.timed_out).1 ≡ true)
    × (resolve_response
          (cancel_request busy (JsonRpcId.int (pos 1)) FinalizedRequestStatus.timed_out).0
          reply
        ≡ (
          (cancel_request busy (JsonRpcId.int (pos 1)) FinalizedRequestStatus.timed_out).0,
          raised (
              late_response
                (JsonRpcId.int (pos 1))
                FinalizedRequestStatus.timed_out
                "thread/start"),
        ))
unfolding Dict.get
cancel_then_resolve_example =
    cancel_then_resolve busy (JsonRpcId.int (pos 1)) FinalizedRequestStatus.timed_out reply first
      busy-IsValid (cc) refl refl

settled_forever_example :
    future_state (resolve_response (after busy reply) stray).0 0
    ≡ some (FutureState.result (Json.text "ok"))
unfolding Dict.get settlement
settled_forever_example =
    settled_forever 0 (FutureState.result (Json.text "ok"))
      (next here (resolved (after busy reply) stray)) refl
      (resolve_response_hit busy reply first busy-IsValid refl refl).1

register_request_fresh_example :
    (p : PendingJsonRpcRequest) × ((register_request busy "turn/start" JsonRpcId.null).1
      ≡ returned p)
    × (p.request_id ≡ fresh_id busy)
    × (p.method ≡ "turn/start")
    × (Dict.get
          (fresh_id busy)
          (register_request busy "turn/start" JsonRpcId.null).0.pending_requests
        ≡ some p)
    × (future_state (register_request busy "turn/start" JsonRpcId.null).0 p.future
        ≡ some FutureState.waiting)
    × (future_state busy p.future ≡ none)
register_request_fresh_example = register_request_fresh busy "turn/start" busy-IsValid

abbrev eof : RpcException
eof = external "TransportClosedError"
