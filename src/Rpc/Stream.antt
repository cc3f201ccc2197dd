-- ===== src/Rpc/Stream.antt =====
-- src/codex_agent_sdk/rpc/router.py: `_InboundMessageStream`, a queue with an
-- explicit close and a terminal error. A size limit of 0 means no limit, as in `asyncio.Queue`.
pub mod Drain
use codex_python_sdk_unoffic.Common.{
  ℕ, zero, suc, Bool, true, false, Option, none, some, List, [], ◌∷◌, ◌++◌, ◌||◌, ◌&&◌, not,
  if◌then◌else◌, leb, ltb, or_else, length,
}
use codex_python_sdk_unoffic.Rpc.Requests.{RpcException}

pub record InboundMessageStream {ℓ} (A : Type ℓ) : Type ℓ where
  pub max_queue_size : ℕ
  pub queue : List A
  pub is_closed : Bool
  pub terminal_error : Option RpcException

pub data Put {ℓ} (A : Type ℓ) : Type ℓ where
  queued : InboundMessageStream A → Put A
  refused : Put A
  queue_full : Put A

-- what `_next_item` does now: `waits` while the queue is empty and the stream is open
pub data Next {ℓ} (A : Type ℓ) : Type ℓ where
  item : A → InboundMessageStream A → Next A
  stream_closed : Next A
  raises : RpcException → Next A
  waits : Next A

module _ {ℓ} {A : Type ℓ} where
  abbrev pub new_stream : ℕ → InboundMessageStream A
  new_stream max_queue_size = record {
    max_queue_size = max_queue_size;
    queue = [];
    is_closed = false;
    terminal_error = none;
  }

  -- `Queue.full()`
  abbrev pub is_full : InboundMessageStream A → Bool
  is_full s = ltb 0 s.max_queue_size && leb s.max_queue_size (length s.queue)

  abbrev pub push : InboundMessageStream A → A → InboundMessageStream A
  push s a = record s { queue = s.queue ++ a ∷ [] }

  unfoldable pub put_nowait : InboundMessageStream A → A → Put A
  put_nowait s a =
      if s.is_closed then refused else if is_full s then queue_full else queued (push s a)

  -- `put` on a stream with no size limit, where `Queue.put` does not wait
  unfoldable pub put_unbounded : InboundMessageStream A → A → Put A
  put_unbounded s a = if s.is_closed then refused else queued (push s a)

  -- the first error is kept
  unfoldable pub close : InboundMessageStream A → Option RpcException → InboundMessageStream A
  close s error = record s { is_closed = true; terminal_error = or_else s.terminal_error error }

  end_of : InboundMessageStream A → Next A
  end_of s =
      if s.is_closed
      then elim s.terminal_error [ none ↦ stream_closed | some e ↦ raises e ]
      else waits

  unfoldable pub next_item : InboundMessageStream A → Next A
  unfolding end_of
  next_item s = elim s.queue [ [] ↦ end_of s | a ∷ rest ↦ item a (record s { queue = rest }) ]

  -- What `iter_items` yields from here with no new item put, and how it stops. The fuel bounds the
  -- items; `Drain` shows that one more than the queue's length is enough.
  unfoldable pub iter_items : ℕ → InboundMessageStream A → List A × Next A
  iter_items zero s = ([], waits)
  iter_items (suc fuel) s = elim (next_item s) [
    | item a rest ↦ (let (items, stop) = iter_items fuel rest in (a ∷ items, stop))
    | stream_closed ↦ ([], stream_closed)
    | raises e ↦ ([], raises e)
    | waits ↦ ([], waits)
  ]
