-- ===== src/Client/Turns.antt =====
-- src/codex_agent_sdk/client.py: the turns of `CodexSDKClient`, with the pump that feeds each
-- turn's stream.
--
-- `streams` is the heap of the turns' streams, since a pump keeps its stream after the client has
-- dropped it; `turn_streams` is the client's own dictionary, from turn ids into the heap. The events
-- of a turn and the error of its event source enter as a list of inputs. Of the events, only those
-- that the client looks at are told apart.
pub mod Pump
use codex_python_sdk_unoffic.Common.{
  ℕ, String, Bool, true, false, Option, none, some, List, [], ◌∷◌, ◌++◌, ◌==◌, string_eq,
  if◌then◌else◌, get_elem?, set, length,
}
use codex_python_sdk_unoffic.Common.Dict
use codex_python_sdk_unoffic.Common.Dict.{Dict}
use codex_python_sdk_unoffic.Rpc.Requests.{RpcException}
use codex_python_sdk_unoffic.Client.TurnStream
use codex_python_sdk_unoffic.Client.TurnStream.{ManagedTurnStream, publish, fail}

pub data TurnEvent (E R : Type 0) : Type 0 where
  thread_status_changed : String → Option String → TurnEvent E R
  turn_started : String → TurnEvent E R
  turn_completed : String → Option R → TurnEvent E R
  other : E → TurnEvent E R

-- `missing_result` is the `ClientStateError` of a completion without a result
pub data PumpError : Type 0 where
  missing_result : PumpError
  source_failed : RpcException → PumpError

-- the completion future
pub data Completion (R : Type 0) : Type 0 where
  waiting cancelled : Completion R
  result : R → Completion R
  exception : PumpError → Completion R

abbrev pub is_done : {R : Type 0} → Completion R → Bool
is_done waiting = false
is_done _ = true

pub record TurnStreamObject (E R : Type 0) : Type 0 where
  pub turn_id : String
  pub completion : Completion R
  pub stream : ManagedTurnStream (TurnEvent E R) PumpError

pub record CodexSdkClient (E R : Type 0) : Type 0 where
  pub thread_id : Option String
  pub active_turn_id : Option String
  pub thread_status : Option String
  pub turn_streams : Dict String ℕ
  pub streams : List (TurnStreamObject E R)

module _ {E R : Type 0} where
  -- `if not future.done(): <settle>`
  abbrev pub settle : TurnStreamObject E R → Completion R → TurnStreamObject E R
  settle t outcome = if is_done t.completion then t else record t { completion = outcome }

  abbrev pub is_active : CodexSdkClient E R → String → Bool
  is_active c i = elim c.active_turn_id [ none ↦ false | some j ↦ j == i ]

  abbrev pub no_active : CodexSdkClient E R → CodexSdkClient E R
  no_active c = record c { active_turn_id = none }

  -- `self._turn_streams.get(turn_id)`
  abbrev pub find_stream : CodexSdkClient E R → String → Option (TurnStreamObject E R)
  find_stream c i = elim (Dict.get i c.turn_streams) [
    | none ↦ none
    | some h ↦ get_elem? c.streams h
  ]

  unfoldable pub clear_finished_active_turn : CodexSdkClient E R → CodexSdkClient E R
  clear_finished_active_turn c = elim c.active_turn_id [
    | none ↦ c
    | some i ↦ elim (find_stream c i) [
      | none ↦ c
      | some t ↦ if is_done t.completion then no_active c else c
    ]
  ]

  -- the rest of `_raise_if_turn_in_progress`, and whether it raises
  unfoldable pub check_active : CodexSdkClient E R → CodexSdkClient E R × Bool
  check_active c = elim c.active_turn_id [
    | none ↦ (c, false)
    | some i ↦ elim (find_stream c i) [
      | none ↦ (no_active c, false)
      | some t ↦ if is_done t.completion then (no_active c, false) else (c, true)
    ]
  ]

  unfoldable pub raise_if_turn_in_progress : CodexSdkClient E R → CodexSdkClient E R × Bool
  unfolding clear_finished_active_turn check_active
  raise_if_turn_in_progress c = check_active (clear_finished_active_turn c)

  unfoldable pub observe_turn_event : CodexSdkClient E R → TurnEvent E R → CodexSdkClient E R
  observe_turn_event c (thread_status_changed i status) = elim c.thread_id [
    | none ↦ c
    | some j ↦ if i == j then record c { thread_status = status } else c
  ]
  observe_turn_event c (turn_started i) = record c { active_turn_id = some i }
  observe_turn_event c (turn_completed i r) = if is_active c i then no_active c else c
  observe_turn_event c (other e) = c

  -- the end of `query`: a turn has started
  unfoldable pub add_turn : CodexSdkClient E R → String → CodexSdkClient E R × ℕ
  add_turn c i =
      let t : TurnStreamObject E R = record {
        turn_id = i;
        completion = waiting;
        stream = TurnStream.new_stream;
      } in
      (
        record c {
          active_turn_id = some i;
          turn_streams = Dict.put i (length c.streams) c.turn_streams;
          streams = c.streams ++ t ∷ [];
        },
        length c.streams,
      )

  abbrev pub update :
      CodexSdkClient E R → ℕ → (TurnStreamObject E R → TurnStreamObject E R) → CodexSdkClient E R
  update c h f = elim (get_elem? c.streams h) [
    | none ↦ c
    | some t ↦ record c { streams = set c.streams h (f t) }
  ]

  abbrev pub publish_event : TurnEvent E R → TurnStreamObject E R → TurnStreamObject E R
  publish_event e t = record t { stream = publish t.stream e }

  -- one event that goes through the pump
  unfoldable pub pump_event : CodexSdkClient E R → ℕ → TurnEvent E R → CodexSdkClient E R
  unfolding observe_turn_event
  pump_event c h e = update (observe_turn_event c e) h (publish_event e)

-- what the pump's loop meets
pub data PumpInput (E R : Type 0) : Type 0 where
  yields : TurnEvent E R → PumpInput E R
  raises : RpcException → PumpInput E R
  task_cancelled : PumpInput E R

-- how the loop ends
pub data PumpEnd (R : Type 0) : Type 0 where
  returned : R → PumpEnd R
  failed : PumpError → PumpEnd R
  was_cancelled : PumpEnd R

module _ {E R : Type 0} where
  -- what an event makes of the loop, once it went through
  abbrev pub ending_of : TurnEvent E R → Option (PumpEnd R)
  ending_of (turn_completed i (some r)) = some (returned r)
  ending_of (turn_completed i none) = some (failed missing_result)
  ending_of _ = none

  -- `if stream._terminal_exception is None: stream.close()`
  unfoldable pub close_unless_failed : TurnStreamObject E R → TurnStreamObject E R
  close_unless_failed t = elim t.stream.terminal_exception [
    | some _ ↦ t
    | none ↦ record t { stream = TurnStream.close t.stream }
  ]

  -- what the end of the loop does to the turn's own object
  unfoldable pub end_stream : PumpEnd R → TurnStreamObject E R → TurnStreamObject E R
  unfolding close_unless_failed
  end_stream (returned r) t = close_unless_failed (settle t (result r))
  end_stream (failed exc) t =
      let t' = settle t (exception exc) in
      close_unless_failed (record t' { stream = fail t'.stream exc })
  end_stream was_cancelled t = close_unless_failed (settle t cancelled)

  -- the rest of `finally`
  abbrev pub drop_turn : CodexSdkClient E R → String → CodexSdkClient E R
  drop_turn c i = record c {
    active_turn_id = if is_active c i then none else c.active_turn_id;
    turn_streams = Dict.remove i c.turn_streams;
  }

  unfoldable pub finish : CodexSdkClient E R → ℕ → PumpEnd R → CodexSdkClient E R
  unfolding end_stream
  finish c h end = elim (get_elem? c.streams h) [
    | none ↦ c
    | some t ↦ drop_turn (record c { streams = set c.streams h (end_stream end t) }) t.turn_id
  ]

  abbrev pub finish_if : CodexSdkClient E R → ℕ → Option (PumpEnd R) → CodexSdkClient E R
  finish_if c h none = c
  finish_if c h (some end) = finish c h end

  -- one turn of the loop of `_pump_turn_stream`
  unfoldable pub pump_step : CodexSdkClient E R → ℕ → PumpInput E R → CodexSdkClient E R
  unfolding pump_event finish
  pump_step c h (yields e) = finish_if (pump_event c h e) h (ending_of e)
  pump_step c h (raises exc) = finish c h (failed (source_failed exc))
  pump_step c h task_cancelled = finish c h was_cancelled
