-- ===== src/Client/TurnStream/Delivery.antt =====
-- src/codex_agent_sdk/client.py: what a subscriber of a turn's stream reads.
use codex_python_sdk_unoffic.Common.{
  ℕ, ◌+◌, false, none, some, List, [], ◌∷◌, ◌++◌, ◌≡◌, ◌≢◌, refl, sym, ap, ◌∙◌, arith, ◌==◌, nat_eq,
  nat_beq_iff, if◌then◌else◌, mem, mem-append, All, inl, inr, Bool-cases, Option-cases,
  append_assoc, append-nil,
}
use codex_python_sdk_unoffic.Common.Dict
use codex_python_sdk_unoffic.Common.Dict.{get-put}
use codex_python_sdk_unoffic.Client.TurnStream.{
  QueueItem, event, failure, stream_end, ManagedTurnStream, Next, yields, raises, returns, waits,
  first_items, subscribe, new_stream, put_queue, publish, fail, close, unsubscribe, next_item,
  next_event,
}
use codex_python_sdk_unoffic.Client.TurnStream.Queues.{
  Call, published, failed, was_closed, subscribed, taken, unsubscribed, IsSound, step,
}
use codex_python_sdk_unoffic.Client.TurnStream.Steps.{step-IsSound, put_queue-IsSound}
use codex_python_sdk_unoffic.Client.TurnStream.Reading.{
  read_queue, read, after_turn, watch, log, Stays, HasEnd, watch-other, watch-own, at_put, Ended,
  ended,
}
use codex_python_sdk_unoffic.Client.TurnStream.Live.{
  IsLive, read_queue-append, published-IsLive, failed-Ended, closed-Ended, subscribed-IsLive,
  unsubscribed-IsLive, taken-IsLive,
}

module _ {E X : Type 0} where
  -- what is read of a live queue, and then of a log
  abbrev then_log : List (QueueItem E X) → List E × Next E X → List E × Next E X
  then_log q l = ((read_queue q).0 ++ l.0, l.1)

  live_turn :
      (s : ManagedTurnStream E X) (i : ℕ) (q : List (QueueItem E X)) (cs : List (Call E X))
      (l : List E × Next E X)
      → ((t : ManagedTurnStream E X) (p : List (QueueItem E X))
          → IsLive i t p
          → watch t i cs ≡ then_log p l)
      → IsLive i s q
      → after_turn (next_item s i q).1 (watch (next_item s i q).0 i cs) ≡ then_log q l
  unfolding next_item
  live_turn s i [] cs l ih v = ih s [] v
  live_turn s i (event e ∷ q) cs l ih v = ap (after_turn (yields e)) (
      ih (put_queue s i q) q (record {
        sound = put_queue-IsSound s i q v.sound;
        in_use = v.in_use;
        at = at_put s i q;
        listed = v.listed;
        no_failure = v.no_failure;
        is_open = v.is_open;
        going = v.going;
      }))
  live_turn s i (failure exc ∷ q) cs l ih v = absurd (ground (arith, v.going))
  live_turn s i (stream_end ∷ q) cs l ih v = absurd (ground (arith, v.going))

  live :
      (cs : List (Call E X)) (s : ManagedTurnStream E X) (i : ℕ) (q : List (QueueItem E X))
      → IsLive i s q
      → All (Stays i) cs
      → watch s i cs ≡ then_log q (log cs)
  unfolding watch
  live [] s i q v k =
      ap read v.at ∙ ap read_queue (sym (append-nil q)) ∙ read_queue-append q [] v.going
  live (published e ∷ cs) s i q v k =
      live cs (publish s e) i (q ++ event e ∷ []) (published-IsLive s i q e v) k.1
      ∙ ap (λ (x : List E × Next E X). (x.0 ++ (log cs).0, (log cs).1))
          (read_queue-append q (event e ∷ []) v.going)
      ∙ ap (λ es. (es, (log cs).1)) (append_assoc (read_queue q).0 (e ∷ []) (log cs).0)
  live (failed exc ∷ cs) s i q v k =
      ended cs (fail s exc) i (q ++ failure exc ∷ []) (failed-Ended s i q exc v)
      ∙ read_queue-append q (failure exc ∷ []) v.going
  live (was_closed ∷ cs) s i q v k =
      ended cs (close s) i (q ++ stream_end ∷ []) (closed-Ended s i q v)
      ∙ read_queue-append q (stream_end ∷ []) v.going
  live (subscribed ∷ cs) s i q v k = live cs (subscribe s).0 i q (subscribed-IsLive s i q v) k.1
  live (unsubscribed j ∷ cs) s i q v k =
      live cs (unsubscribe s j) i q (unsubscribed-IsLive s i j q k.0 v) k.1
  live (taken j ∷ cs) s i q v k = elim (Bool-cases (j == i)) [
    | inl same ↦
        watch-own s i (taken j) cs q same v.at
        ∙ live_turn s i q cs (log cs) (λ t p w. live cs t i p w k.1) v
    | inr other ↦
        watch-other s i (taken j) cs other
        ∙ live cs (next_event s j).0 i q (taken-IsLive s i j q other v) k.1
  ]

  -- what a subscriber reads that joins a stream as it is, before these calls
  abbrev pub joining : ManagedTurnStream E X → List (Call E X) → List E × Next E X
  joining s cs = elim s.terminal_exception [
    | some exc ↦ ([], raises exc)
    | none ↦ if s.closed then ([], returns) else log cs
  ]

  unfoldable pub run : ManagedTurnStream E X → List (Call E X) → ManagedTurnStream E X
  run s [] = s
  run s (c ∷ cs) = run (step s c) cs

  run-IsSound : (s : ManagedTurnStream E X) (cs : List (Call E X)) → IsSound s → IsSound (run s cs)
  unfolding run
  run-IsSound s [] v = v
  run-IsSound s (c ∷ cs) v = run-IsSound (step s c) cs (step-IsSound s c v)

  at_subscribe :
      (s : ManagedTurnStream E X)
      → Dict.get (subscribe s).1 (subscribe s).0.queues ≡ some (first_items s)
  unfolding subscribe
  at_subscribe s = at_put s (s.next_subscriber_id + 1) (first_items s)

  joined-IsLive :
      (s : ManagedTurnStream E X)
      → IsSound s
      → s.terminal_exception ≡ none
      → s.closed ≡ false
      → IsLive (subscribe s).1 (subscribe s).0 []
  unfolding subscribe first_items
  joined-IsLive s v n o = record {
    sound = step-IsSound s subscribed v;
    in_use = omega arith;
    at = at_subscribe s ∙ ground (arith, n, o);
    listed = ground (
      arith,
      mem-append (s.next_subscriber_id + 1) (s.next_subscriber_id + 1) s.subscribers,
      nat_beq_iff (s.next_subscriber_id + 1) (s.next_subscriber_id + 1),
    );
    no_failure = n;
    is_open = o;
    going = refl;
  }

  joined-Ended :
      (s : ManagedTurnStream E X) (q : List (QueueItem E X))
      → IsSound s
      → first_items s ≡ q
      → (read_queue q).1 ≢ waits
      → Ended (subscribe s).1 (subscribe s).0 q
  unfolding Ended HasEnd subscribe
  joined-Ended s q v first e =
      (step-IsSound s subscribed v, omega arith, at_subscribe s ∙ ap some first, e)

  joined_reads :
      (s : ManagedTurnStream E X) (cs : List (Call E X))
      → IsSound s
      → All (Stays (subscribe s).1) cs
      → watch (subscribe s).0 (subscribe s).1 cs ≡ joining s cs
  unfolding first_items
  joined_reads s cs v k = elim (Option-cases s.terminal_exception) [
    | inr (exc, f) ↦
        ended cs (subscribe s).0 (subscribe s).1 (failure exc ∷ []) (
          joined-Ended s (failure exc ∷ []) v (ground (arith, f)) (λ w. absurd (ground (arith, w))))
        ∙ ground (arith, f)
    | inl n ↦ elim (Bool-cases s.closed) [
      | inl c ↦
          ended cs (subscribe s).0 (subscribe s).1 (stream_end ∷ []) (
            joined-Ended s (stream_end ∷ []) v (ground (arith, n, c))
              (λ w. absurd (ground (arith, w))))
          ∙ ground (arith, n, c)
      | inr o ↦
          live cs (subscribe s).0 (subscribe s).1 [] (joined-IsLive s v n o) k
          ∙ ground (arith, n, o)
    ]
  ]

  new-IsSound : IsSound (new_stream {E = E} {X = X})
  unfolding mem
  new-IsSound = record { distinct = tt; handed_out = λ j m. absurd (ground (arith, m)) }

  -- Whatever the pump, other subscribers and this one's own turns do and in which order, a
  -- subscriber of an open stream reads exactly the events that are published from then on until the
  -- stream fails or is closed, in order, and then that failure or the end. If the stream has
  -- already failed or been closed, it reads only that. Its iterator must not be closed early.
  pub subscriber_reads :
      (before after : List (Call E X))
      → All (Stays (subscribe (run new_stream before)).1) after
      → watch (subscribe (run new_stream before)).0 (subscribe (run new_stream before)).1 after
        ≡ joining (run new_stream before) after
  subscriber_reads before after k =
      joined_reads (run new_stream before) after (run-IsSound new_stream before new-IsSound) k
