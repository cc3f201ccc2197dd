-- ===== src/Lib.antt =====
-- A verification library for the JSON-RPC core of the unofficial Codex Python SDK.
--
-- The program is a client of `codex app-server`. A transport carries newline-delimited JSON; the
-- RPC layer turns each line into an envelope and routes it: a response to the waiter of its
-- request, a notification to the subscriptions that match it, a request of the server to a handler
-- or to the subscriptions for requests. Errors in responses are mapped to exception classes. Above
-- that layer, a client runs the handshake, answers requests for approval, and hands each turn's
-- events to its subscribers; the events are added up to the texts of the turn's items and to its
-- result.
--
-- Which file models which part (paths from the repository's root):
--   Json             JSON values; a member list keeps the order of a Python dict, and a key is read at
--                    its first entry
--   Rpc/Envelope     src/codex_agent_sdk/rpc/jsonrpc.py: the envelope classes, `to_wire_dict`,
--                    `coerce_jsonrpc_envelope`, `parse_…`, `serialize_…`, `classify_…`
--   Errors           src/codex_agent_sdk/errors.py: `map_jsonrpc_error`, `is_retryable_error`
--   Rpc/Requests     src/codex_agent_sdk/rpc/router.py: `JsonRpcRequestIdAllocator` and
--                    `JsonRpcRequestRegistry`; futures are a list of states, addressed by number
--   Rpc/Stream       the same file: `_InboundMessageStream`
--   Rpc/Filter       the same file: the subscription filters and the ids of threads and turns
--   Rpc/Notifications  the same file: `JsonRpcNotificationBus` and its subscriptions
--   Rpc/ServerRequests the same file: `JsonRpcServerRequestRouter` and its subscriptions
--   Rpc/Dispatcher   the same file: `JsonRpcBackgroundDispatcher`, over the registry, the bus and
--                    the router; what the transport yields enters as a list of reads
--   Rpc/Connection   src/codex_agent_sdk/rpc/connection.py: `JsonRpcConnection` over the dispatcher;
--                    what the transport does enters as arguments
--   Transport        src/codex_agent_sdk/transport/stdio.py: frames cut from chunks of bytes,
--                    envelopes written and read on them, and the shutdown of the process
--   Client/Handshake src/codex_agent_sdk/client.py: the handshake of `AppServerClient`
--   Client/TurnStream  the same file: `_ManagedTurnStream` and its subscribers
--   Client/Turns     the same file: the active turn of `CodexSDKClient`, and the pump of a turn
--   Approvals        src/codex_agent_sdk/approvals.py: decisions and what a request offers; and what
--                    the client does with a decision
--   TurnAggregation  src/codex_agent_sdk/_turn_aggregation.py: `TurnOutputState` and its events in
--                    State, `build_turn_result` and `TurnOutputAggregator` in Build
--   Retry            src/codex_agent_sdk/retry.py: `retry_on_overload`, with the delays, which are
--                    floats, and the caller's sleep as parameters
--   Common           lists, dictionaries that keep insertion order, keys, strings and integers
--   Tests            the theorems applied to concrete values
--
-- Each method that changes state is a function from the state before to the state after, with an
-- outcome for what it returns or raises. The methods hold their asyncio lock without awaiting
-- anything else, so each is one step, and the interleavings of tasks are the sequences of steps:
-- `Reach` of Rpc/Requests/Runs, Rpc/Notifications/Reachable, Rpc/Connection/Runs and
-- Client/Handshake/Once, `Run` of Rpc/ServerRequests/Responses, and the lists of calls of
-- Client/TurnStream. Where a coroutine waits for the transport or the server, it is cut into the
-- parts between its waits, each a function of its own.
--
-- Reading a stream takes a fuel: the number of items asked for. A stream that holds n items and is
-- closed is read to its end with any fuel above n. Reading frames or envelopes from a pipe takes one
-- for each line and one more. Nothing else here takes fuel.
--
-- Integers of the program are unbounded, so ℤ has no wrap-around. A JSON float is kept as an opaque
-- number, since the RPC layer only asks whether a value is one.
--
-- Not modelled: the typed requests of the clients, the adapters of approval requests and events,
-- the start of the process and its stderr, the synchronous client, asyncio itself, pydantic models
-- and all generated code, logging, the maintenance tools, and the texts of exceptions beyond what
-- the code tests. The JSON and UTF-8 codecs, the response sender, the waits for the process, its
-- stdin and its stderr, and the handlers of the application are parameters.
mod Common
pub mod Json
pub mod Errors
pub mod Rpc
pub mod TurnAggregation
pub mod Client
pub mod Approvals
pub mod Retry
pub mod Transport
mod Tests
