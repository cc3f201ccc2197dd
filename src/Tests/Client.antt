-- ===== src/Tests/Client.antt =====
-- The handshake and the turn streams of src/codex_agent_sdk/client.py at concrete calls.
use codex_python_sdk_unoffic.Common.{ℕ, String, none, some, [], ◌∷◌, ◌≡◌, ◌≢◌, ◌↔◌, refl, nat_eq}
use codex_python_sdk_unoffic.Common.Dict
use codex_python_sdk_unoffic.Json.{Json}
use codex_python_sdk_unoffic.Client.Handshake.{
  initialized, AppServerClient, new_client, ClientError, raises, initialize, initialize_alone,
  create_task, unavailable, handshake_done, close, guard_outbound_request_method,
  guard_outbound_notification_method,
}
use codex_python_sdk_unoffic.Client.Handshake.Once.{
  here, next, initialize_called, done, was_closed, IsDone, initialized_once, guards_iff,
}
use codex_python_sdk_unoffic.Client.TurnStream.{new_stream, subscribe, publish, put_each, returns}
use codex_python_sdk_unoffic.Client.TurnStream.Queues.{
  Call, published, was_closed as stream_closed, subscribed, taken,
}
use codex_python_sdk_unoffic.Client.TurnStream.Reading.{watch}
use codex_python_sdk_unoffic.Client.TurnStream.Delivery.{run, subscriber_reads}
use codex_python_sdk_unoffic.Client.Turns.{CodexSdkClient, add_turn}

abbrev calling : AppServerClient
calling = (initialize new_client none).0

abbrev pub ready : AppServerClient
ready = handshake_done calling (Json.text "server")

initialized_once_example :
    IsDone (close ready) (Json.text "server")
    × ((x : ClientError) × (initialize (close ready) none ≡ (close ready, raises x)))
unfolding initialize initialize_alone create_task unavailable handshake_done
initialized_once_example =
    initialized_once (Json.text "server") none
      (next (next here (initialize_called none)) (done (Json.text "server") refl)) refl
      (next here was_closed)

abbrev turn_start : String
turn_start = "turn/start"

guards_iff_example :
    ((guard_outbound_request_method ready none turn_start ≡ none) ↔ (
      (ready.handshake_state ≡ initialized)
      × (turn_start ≢ "initialize")
      × (turn_start ≢ "initialized")))
    × ((guard_outbound_notification_method ready none turn_start ≡ none) ↔ (
        (ready.handshake_state ≡ initialized)
        × (turn_start ≢ "initialize")
        × (turn_start ≢ "initialized")))
guards_iff_example = guards_iff ready none turn_start

-- events are numbers; one is published before the subscriber joins, two after
abbrev earlier : Call ℕ String
earlier = published 1

subscriber_reads_example :
    watch
      (subscribe (run new_stream (earlier ∷ []))).0
      (subscribe (run new_stream (earlier ∷ []))).1
      (published 2 ∷ taken 1 ∷ subscribed ∷ published 3 ∷ stream_closed ∷ published 4 ∷ [])
    ≡ (2 ∷ 3 ∷ [], returns)
unfolding run publish put_each
subscriber_reads_example =
    subscriber_reads (earlier ∷ [])
      (published 2 ∷ taken 1 ∷ subscribed ∷ published 3 ∷ stream_closed ∷ published 4 ∷ [])
      (tt, (tt, (tt, (tt, (tt, (tt, tt))))))

abbrev no_turns : CodexSdkClient ℕ String
no_turns = record {
  thread_id = some "thread";
  active_turn_id = none;
  thread_status = none;
  turn_streams = [];
  streams = [];
}

abbrev one_turn : CodexSdkClient ℕ String
one_turn = (add_turn no_turns "turn").0
