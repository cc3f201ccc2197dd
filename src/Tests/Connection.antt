-- ===== src/Tests/Connection.antt =====
-- The connection of src/codex_agent_sdk/rpc/connection.py at concrete steps.
use codex_python_sdk_unoffic.Common.{pos, true, none, some, ◌≡◌, refl}
use codex_python_sdk_unoffic.Common.Dict
use codex_python_sdk_unoffic.Rpc.Envelope.{JsonRpcId, id_eq}
use codex_python_sdk_unoffic.Rpc.Requests.{external, request_timeout, settlement}
use codex_python_sdk_unoffic.Rpc.Requests.Correlation.{after}
use codex_python_sdk_unoffic.Rpc.ServerRequests.{new_router, queue}
use codex_python_sdk_unoffic.Rpc.Dispatcher.{dispatch_round, envelope}
use codex_python_sdk_unoffic.Rpc.Dispatcher.Failure.{envelope_of}
use codex_python_sdk_unoffic.Rpc.Connection.{
  JsonRpcConnection, new_connection, with_requests, begin_request, write_failed, after_notify,
  fail_connection, after_response, after_close, shut, raises, future_result, on_timeout,
}
use codex_python_sdk_unoffic.Rpc.Connection.Runs.{
  here, next, notified, requested, response_written, close_ended, StaysClosed, closed_for_good,
}
use codex_python_sdk_unoffic.Rpc.Connection.Timeouts.{timeout_race}
use codex_python_sdk_unoffic.Tests.Requests.{busy, busy-IsValid, first, reply}
use codex_python_sdk_unoffic.Tests.Notifications.{watched}
use codex_python_sdk_unoffic.Tests.Dispatcher.{sends}

abbrev pub connected : JsonRpcConnection
connected = new_connection busy watched (new_router true queue)

-- a notification could not be written
abbrev broken : JsonRpcConnection
broken = after_notify connected (write_failed (external "broken pipe"))

-- the later steps: a response's write fails too, a request is made, and the user's close ends
closed_for_good_example : StaysClosed broken (
    after_close
      (begin_request (after_response broken (some (external "broken pipe"))) "turn/start").0)
unfolding after_notify fail_connection shut
closed_for_good_example =
    closed_for_good busy watched (new_router true queue)
      (next here (notified (write_failed (external "broken pipe")))) refl
      (next
        (next (next here (response_written (some (external "broken pipe"))))
          (requested "turn/start"))
        close_ended)

timeout_race_example :
    ((on_timeout connected first).1
      ≡ raises (request_timeout "thread/start" (JsonRpcId.int (pos 1))))
    × (Dict.get
          (JsonRpcId.int (pos 1))
          (on_timeout connected first).0.dispatcher.requests.pending_requests
        ≡ none)
    × (dispatch_round sends
          (on_timeout connected first).0.dispatcher
          (envelope (envelope_of sends reply))
        ≡ (on_timeout connected first).0.dispatcher)
    × ((on_timeout (with_requests connected (after busy reply)) first).0
        ≡ with_requests connected (after busy reply))
    × (some (on_timeout (with_requests connected (after busy reply)) first).1
        ≡ future_result (settlement reply "thread/start"))
unfolding Dict.get
timeout_race_example = timeout_race sends connected first reply busy-IsValid refl refl
