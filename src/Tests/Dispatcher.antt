-- ===== src/Tests/Dispatcher.antt =====
-- The dispatcher of src/codex_agent_sdk/rpc/router.py at concrete reads.
use codex_python_sdk_unoffic.Common.{pos, true, false, Option, none, [], ◌∷◌, refl}
use codex_python_sdk_unoffic.Common.Dict
use codex_python_sdk_unoffic.Json.{Json}
use codex_python_sdk_unoffic.Rpc.Envelope.{JsonRpcId, id_eq}
use codex_python_sdk_unoffic.Rpc.Requests.{
  RpcException, unknown_response_id, JsonRpcResponse, FinalizedRequestStatus,
  JsonRpcRequestRegistry, cancel_request,
}
use codex_python_sdk_unoffic.Rpc.ServerRequests.{new_router, queue}
use codex_python_sdk_unoffic.Rpc.Dispatcher.{
  JsonRpcBackgroundDispatcher, running, envelope, end_of_stream, dispatch_round, dispatch_loop,
  transport_closed,
}
use codex_python_sdk_unoffic.Rpc.Dispatcher.Runs.{IsSound, dispatch_loop-IsSound}
use codex_python_sdk_unoffic.Rpc.Dispatcher.Failure.{IsShut, fatal_read_shuts, envelope_of}
use codex_python_sdk_unoffic.Rpc.Dispatcher.Unmatched.{unmatched_response_lem}
use codex_python_sdk_unoffic.Tests.Requests.{busy, busy-IsValid, reply}
use codex_python_sdk_unoffic.Tests.Notifications.{watched, watched-IsValid}

abbrev pub sends : JsonRpcResponse → Option RpcException
sends x = none

abbrev pub with_registry : JsonRpcRequestRegistry → JsonRpcBackgroundDispatcher
with_registry r = record {
  requests = r;
  notifications = watched;
  server_requests = new_router true queue;
  dispatch_task = running;
  stop_requested = false;
  fatal_errors = [];
}

busy-IsSound : IsSound (with_registry busy)
busy-IsSound = record { registry = busy-IsValid; bus = watched-IsValid }

dispatch_loop-IsSound_example : IsSound (
    dispatch_loop sends
      (with_registry busy)
      (envelope (envelope_of sends reply) ∷ end_of_stream ∷ []))
dispatch_loop-IsSound_example =
    dispatch_loop-IsSound sends (with_registry busy)
      (envelope (envelope_of sends reply) ∷ end_of_stream ∷ []) busy-IsSound

fatal_read_shuts_example :
    IsShut
      (with_registry busy)
      (dispatch_round sends (with_registry busy) end_of_stream)
      transport_closed
fatal_read_shuts_example =
    fatal_read_shuts sends (with_registry busy) end_of_stream transport_closed busy-IsSound refl
      refl

abbrev timed_out : JsonRpcRequestRegistry
timed_out = (cancel_request busy (JsonRpcId.int (pos 1)) FinalizedRequestStatus.timed_out).0

-- a response to a request that was never made
abbrev unasked : JsonRpcResponse
unasked = JsonRpcResponse.success (record { id = JsonRpcId.int (pos 7); result = Json.null })

unmatched_response_lem_example :
    IsShut
      (with_registry busy)
      (dispatch_round sends (with_registry busy) (envelope (envelope_of sends unasked)))
      (unknown_response_id (JsonRpcId.int (pos 7)))
unfolding Dict.get
unmatched_response_lem_example =
    unmatched_response_lem sends (with_registry busy) unasked none busy-IsSound refl refl refl
