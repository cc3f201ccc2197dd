-- ===== src/Client/TurnStream.antt =====
-- src/codex_agent_sdk/client.py: `_ManagedTurnStream`, one turn's events for many subscribers.
--
-- A subscriber is shared by the stream and its iterator. `queues` is the heap of the subscribers'
-- queues, and `subscribers` lists the ids in the stream's own list, in which each stands once. The
-- methods suspend nowhere; an iterator suspends where its queue is empty.
pub mod Queues
pub mod Steps
pub mod Reading
pub mod Live
pub mod Delivery
use codex_python_sdk_unoffic.Common.{
  ℕ, ◌+◌, String, Bool, true, false, Option, none, some, List, [], ◌∷◌, ◌++◌, nat_eq, if◌then◌else◌,
  without, is_some,
}
use codex_python_sdk_unoffic.Common.Dict
use codex_python_sdk_unoffic.Common.Dict.{Dict}

-- what a queue holds: an event, `_TurnStreamFailure`, or `_TURN_STREAM_END`
pub data QueueItem (E X : Type 0) : Type 0 where
  event : E → QueueItem E X
  failure : X → QueueItem E X
  stream_end : QueueItem E X

pub record ManagedTurnStream (E X : Type 0) : Type 0 where
  pub next_subscriber_id : ℕ
  pub queues : Dict ℕ (List (QueueItem E X))
  pub subscribers : List ℕ
  pub terminal_exception : Option X
  pub closed : Bool

-- one turn of an iterator
pub data Next (E X : Type 0) : Type 0 where
  yields : E → Next E X
  raises : X → Next E X
  returns : Next E X
  waits : Next E X

module _ {E X : Type 0} where
  abbrev pub new_stream : ManagedTurnStream E X
  new_stream = record {
    next_subscriber_id = 0;
    queues = [];
    subscribers = [];
    terminal_exception = none;
    closed = false;
  }

  -- what a queue starts with
  unfoldable pub first_items : ManagedTurnStream E X → List (QueueItem E X)
  first_items s = elim s.terminal_exception [
    | some exc ↦ failure exc ∷ []
    | none ↦ if s.closed then stream_end ∷ [] else []
  ]

  -- the new subscriber is the one of the id that is returned
  unfoldable pub subscribe : ManagedTurnStream E X → ManagedTurnStream E X × ℕ
  unfolding first_items
  subscribe s =
      let i = s.next_subscriber_id + 1 in
      (
        record s {
          next_subscriber_id = i;
          queues = Dict.put i (first_items s) s.queues;
          subscribers = s.subscribers ++ i ∷ [];
        },
        i,
      )

  abbrev pub put_queue : ManagedTurnStream E X → ℕ → List (QueueItem E X) → ManagedTurnStream E X
  put_queue s i items = record s { queues = Dict.put i items s.queues }

  -- `subscriber.queue.put_nowait(item)` for one subscriber; the queues are unbounded
  unfoldable pub put_nowait : ManagedTurnStream E X → QueueItem E X → ℕ → ManagedTurnStream E X
  put_nowait s item i = elim (Dict.get i s.queues) [
    | none ↦ s
    | some items ↦ put_queue s i (items ++ item ∷ [])
  ]

  unfoldable pub put_each : ManagedTurnStream E X → QueueItem E X → List ℕ → ManagedTurnStream E X
  unfolding put_nowait
  put_each s item [] = s
  put_each s item (i ∷ ids) = put_each (put_nowait s item i) item ids

  unfoldable pub publish : ManagedTurnStream E X → E → ManagedTurnStream E X
  unfolding put_each
  publish s e = elim s.terminal_exception [
    | some _ ↦ s
    | none ↦ if s.closed then s else put_each s (event e) s.subscribers
  ]

  unfoldable pub fail : ManagedTurnStream E X → X → ManagedTurnStream E X
  unfolding put_each
  fail s exc = elim s.terminal_exception [
    | some _ ↦ s
    | none ↦ put_each (record s { terminal_exception = some exc }) (failure exc) s.subscribers
  ]

  unfoldable pub close : ManagedTurnStream E X → ManagedTurnStream E X
  unfolding put_each
  close s = if s.closed then s else put_each (record s { closed = true }) stream_end s.subscribers

  unfoldable pub unsubscribe : ManagedTurnStream E X → ℕ → ManagedTurnStream E X
  unsubscribe s i = record s { subscribers = without i s.subscribers }

  -- `_iter_subscriber`, one turn: an iterator that ends takes its subscriber off the list
  unfoldable pub next_item :
      ManagedTurnStream E X → ℕ → List (QueueItem E X) → ManagedTurnStream E X × Next E X
  unfolding unsubscribe
  next_item s i [] = (s, waits)
  next_item s i (event e ∷ rest) = (put_queue s i rest, yields e)
  next_item s i (failure exc ∷ rest) = (unsubscribe (put_queue s i rest) i, raises exc)
  next_item s i (stream_end ∷ rest) = (unsubscribe (put_queue s i rest) i, returns)

  unfoldable pub next_event : ManagedTurnStream E X → ℕ → ManagedTurnStream E X × Next E X
  unfolding next_item
  next_event s i = elim (Dict.get i s.queues) [
    | none ↦ (s, waits)
    | some items ↦ next_item s i items
  ]
