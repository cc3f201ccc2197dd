-- ===== src/Client/Handshake.antt =====
-- src/codex_agent_sdk/client.py: the initialize handshake of `AppServerClient` and the guards of
-- what it sends.
--
-- Each function is what runs between two suspensions. The initialize lock is held over none. The
-- connection's terminal error enters where the code reads it, and the parsed result of the
-- handshake where it ends.
pub mod Once
use codex_python_sdk_unoffic.Common.{
  String, Bool, true, false, Option, none, some, ◌==◌, string_eq, if◌then◌else◌,
}
use codex_python_sdk_unoffic.Json.{Json}
use codex_python_sdk_unoffic.Rpc.Requests.{RpcException, Outcome, returned, raised}

pub data HandshakeState : Type 0 where
  created initializing initialized failed closed : HandshakeState

-- `_initialize_task`: none, one that runs, or one that closes the connection after its failure
pub data InitializeTask : Type 0 where
  absent running failing : InitializeTask

pub record AppServerClient : Type 0 where
  pub handshake_state : HandshakeState
  pub initialize_task : InitializeTask
  pub initialize_result : Option Json

abbrev pub new_client : AppServerClient
new_client = record {
  handshake_state = created;
  initialize_task = absent;
  initialize_result = none;
}

pub data ClientError : Type 0 where
  already_initialized : ClientError
  client_state : String → ClientError
  not_initialized : String → ClientError
  transport_closed : ClientError
  connection_failed : RpcException → ClientError

-- `_raise_if_handshake_unavailable`: what it raises
unfoldable pub unavailable : AppServerClient → Option RpcException → Option ClientError
unavailable c terminal_error = elim c.handshake_state [
  | failed ↦ elim terminal_error [ none ↦ none | some exc ↦ some (connection_failed exc) ]
  | closed ↦ some transport_closed
  | _ ↦ none
]

-- what a call of `initialize` does: it raises, or waits for the task
pub data Initialize : Type 0 where
  raises : ClientError → Initialize
  awaits_task : Initialize

-- the part under the lock
unfoldable pub create_task : AppServerClient → AppServerClient × Initialize
create_task c = elim c.initialize_result [
  | some _ ↦ (c, raises already_initialized)
  | none ↦ elim c.initialize_task [
    | absent ↦ (record c { handshake_state = initializing; initialize_task = running }, awaits_task)
    | _ ↦ (c, awaits_task)
  ]
]

-- a call that finds no task
unfoldable pub initialize_alone :
    AppServerClient → Option RpcException → AppServerClient × Initialize
unfolding unavailable create_task
initialize_alone c terminal_error = elim (unavailable c terminal_error) [
  | some e ↦ (c, raises e)
  | none ↦ create_task c
]

unfoldable pub initialize : AppServerClient → Option RpcException → AppServerClient × Initialize
unfolding initialize_alone
initialize c terminal_error = elim c.handshake_state [
  | initialized ↦ (c, raises already_initialized)
  | _ ↦ elim c.initialize_task [ absent ↦ initialize_alone c terminal_error | _ ↦ (c, awaits_task) ]
]

-- `_run_initialize_handshake` at its end: the notification was sent
unfoldable pub handshake_done : AppServerClient → Json → AppServerClient
handshake_done c result = record {
  handshake_state = initialized;
  initialize_task = absent;
  initialize_result = some result;
}

-- a failure, before the connection is closed, and after
unfoldable pub handshake_fails : AppServerClient → AppServerClient
handshake_fails c = record c { handshake_state = failed; initialize_task = failing }

-- the task ends without a result: after a failure, or cancelled
unfoldable pub handshake_gone : AppServerClient → AppServerClient
handshake_gone c = record c { initialize_task = absent }

-- `close`, from the end of the connection's close
unfoldable pub close : AppServerClient → AppServerClient
close c = elim c.handshake_state [ failed ↦ c | _ ↦ record c { handshake_state = closed } ]

abbrev or_raise : Option ClientError → ClientError → Option ClientError
or_raise none e = some e
or_raise (some e) _ = some e

unfoldable pub require_initialized :
    AppServerClient → Option RpcException → String → Option ClientError
unfolding unavailable
require_initialized c terminal_error method = elim c.handshake_state [
  | initialized ↦ none
  | _ ↦ or_raise (unavailable c terminal_error) (not_initialized method)
]

-- the guard of `initialize` as a raw request
unfoldable pub initialize_refused : AppServerClient → Option RpcException → Option ClientError
unfolding unavailable
initialize_refused c terminal_error = elim c.handshake_state [
  | initialized ↦ some already_initialized
  | initializing ↦ some (client_state "initialize() is already in progress")
  | _ ↦
      or_raise (unavailable c terminal_error)
        (client_state "use AppServerClient.initialize() for the required initialize handshake")
]

-- `_guard_outbound_request_method`: what it raises
unfoldable pub guard_outbound_request_method :
    AppServerClient → Option RpcException → String → Option ClientError
unfolding require_initialized initialize_refused
guard_outbound_request_method c terminal_error method =
    if method == "initialize"
    then initialize_refused c terminal_error
    else if method == "initialized"
    then some (client_state "'initialized' is reserved for the initialize handshake notification")
    else require_initialized c terminal_error method

-- `_guard_outbound_notification_method`: what it raises
unfoldable pub guard_outbound_notification_method :
    AppServerClient → Option RpcException → String → Option ClientError
unfolding require_initialized
guard_outbound_notification_method c terminal_error method =
    if method == "initialized"
    then some
        (client_state "'initialized' is sent automatically after a successful initialize() call")
    else if method == "initialize"
    then some (client_state "'initialize' is a JSON-RPC request and must be sent via initialize()")
    else require_initialized c terminal_error method
