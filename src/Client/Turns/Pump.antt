-- ===== src/Client/Turns/Pump.antt =====
-- src/codex_agent_sdk/client.py: what is left when a turn's pump ends.
use codex_python_sdk_unoffic.Common.{
  ℕ, Bool, true, false, Option, none, some, List, [], ◌∷◌, ◌≡◌, string_eq, get_elem?,
}
use codex_python_sdk_unoffic.Common.Dict
use codex_python_sdk_unoffic.Client.TurnStream
use codex_python_sdk_unoffic.Client.TurnStream.Queues.{
  Call, published, failed as stream_failed, was_closed,
}
use codex_python_sdk_unoffic.Client.TurnStream.Delivery.{run}
use codex_python_sdk_unoffic.Client.Turns.{
  TurnEvent, PumpError, source_failed, TurnStreamObject, CodexSdkClient, is_done, is_active,
  PumpInput, yields, raises, task_cancelled, PumpEnd, returned, failed, was_cancelled, ending_of,
}

module _ {E R : Type 0} where
  -- what the pump calls on the stream at its end
  abbrev pub end_call : PumpEnd R → Call (TurnEvent E R) PumpError
  end_call (returned r) = was_closed
  end_call (failed exc) = stream_failed exc
  end_call was_cancelled = was_closed

  abbrev pub end_calls : Option (PumpEnd R) → List (Call (TurnEvent E R) PumpError)
  end_calls none = []
  end_calls (some end) = end_call end ∷ []

  -- the calls of one turn of its loop
  abbrev pub calls : PumpInput E R → List (Call (TurnEvent E R) PumpError)
  calls (yields e) = published e ∷ end_calls (ending_of e)
  calls (raises exc) = stream_failed (source_failed exc) ∷ []
  calls task_cancelled = was_closed ∷ []

  abbrev pub ends : PumpInput E R → Bool
  ends (yields e) = elim (ending_of e) [ none ↦ false | some _ ↦ true ]
  ends (raises exc) = true
  ends task_cancelled = true

  -- The turn is over in the client `c`: its stream has had these calls, its future is done, and the
  -- client neither holds its stream nor has it as the active turn.
  pub record IsOver (c : CodexSdkClient E R) (h : ℕ) (t : TurnStreamObject E R)
      (cs : List (Call (TurnEvent E R) PumpError)) : Type 0 where
    pub object : TurnStreamObject E R
    pub at : get_elem? c.streams h ≡ some object
    pub stream : object.stream ≡ run t.stream cs
    pub done : is_done object.completion ≡ true
    pub dropped : Dict.get t.turn_id c.turn_streams ≡ none
    pub inactive : is_active c t.turn_id ≡ false
