-- ===== src/Rpc/Stream/Drain.antt =====
-- Closing a stream loses nothing that was queued.
use codex_python_sdk_unoffic.Common.{
  ℕ, zero, suc, ◌<◌, true, Option, none, some, List, [], ◌∷◌, ◌≡◌, refl, arith, length, or_else,
}
use codex_python_sdk_unoffic.Rpc.Requests.{RpcException}
use codex_python_sdk_unoffic.Rpc.Stream.{
  InboundMessageStream, Next, stream_closed, raises, close, next_item, iter_items,
}

module _ {ℓ} {A : Type ℓ} where
  -- how a closed stream stops
  abbrev pub closing : Option RpcException → Next A
  closing none = stream_closed
  closing (some e) = raises e

  iter_closed :
      (fuel : ℕ) (n : ℕ) (q : List A) (t : Option RpcException)
      → length q < fuel
      → iter_items fuel
          (record { max_queue_size = n; queue = q; is_closed = true; terminal_error = t })
        ≡ (q, closing t)
  unfolding iter_items next_item
  iter_closed zero n q t h = elim h [ ]
  iter_closed (suc fuel) n [] none h = refl
  iter_closed (suc fuel) n [] (some e) h = refl
  iter_closed (suc fuel) n (x ∷ q) t h = rw (iter_closed fuel n q t (omega arith)) refl

  -- Reading a stream after `close` yields all that was queued, in order, and then stops: with the
  -- error that closed the stream first, or plainly if no close gave an error.
  pub iter_items-close :
      (s : InboundMessageStream A) (error : Option RpcException) (fuel : ℕ)
      → length s.queue < fuel
      → iter_items fuel (close s error) ≡ (s.queue, closing (or_else s.terminal_error error))
  unfolding close
  iter_items-close s error fuel h =
      iter_closed fuel s.max_queue_size s.queue (or_else s.terminal_error error) h
