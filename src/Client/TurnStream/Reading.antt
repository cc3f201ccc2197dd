-- ===== src/Client/TurnStream/Reading.antt =====
-- src/codex_agent_sdk/client.py: reading a subscriber's queue to its end.
use codex_python_sdk_unoffic.Common.{
  ℕ, ◌≤◌, true, false, Option, none, some, List, [], ◌∷◌, ◌++◌, ◌≡◌, ◌≢◌, refl, sym, ap, ◌∙◌, arith,
  ◌==◌, nat_eq, nat_beq_iff, if◌then◌else◌, inl, inr, Bool-cases,
}
use codex_python_sdk_unoffic.Common.Dict
use codex_python_sdk_unoffic.Common.Dict.{get-put}
use codex_python_sdk_unoffic.Client.TurnStream.{
  QueueItem, event, failure, stream_end, ManagedTurnStream, Next, yields, raises, returns, waits,
  put_queue, next_item, next_event,
}
use codex_python_sdk_unoffic.Client.TurnStream.Queues.{
  Call, published, failed, was_closed, subscribed, taken, unsubscribed, IsSound, step,
}
use codex_python_sdk_unoffic.Client.TurnStream.Steps.{
  step-IsSound, step-Grows, own, step-id, put_queue-IsSound,
}

module _ {E X : Type 0} where
  -- what reading a queue gives: the events, and what ends them
  abbrev pub read_queue : List (QueueItem E X) → List E × Next E X
  read_queue [] = ([], waits)
  read_queue (event e ∷ items) = (e ∷ (read_queue items).0, (read_queue items).1)
  read_queue (failure exc ∷ items) = ([], raises exc)
  read_queue (stream_end ∷ items) = ([], returns)

  abbrev pub read : Option (List (QueueItem E X)) → List E × Next E X
  read none = ([], waits)
  read (some items) = read_queue items

  abbrev pub after_turn : Next E X → List E × Next E X → List E × Next E X
  after_turn (yields e) rest = (e ∷ rest.0, rest.1)
  after_turn waits rest = rest
  after_turn (raises exc) rest = ([], raises exc)
  after_turn returns rest = ([], returns)

  -- what a subscriber reads in its own turns during the calls, and after them
  unfoldable pub watch : ManagedTurnStream E X → ℕ → List (Call E X) → List E × Next E X
  watch s i [] = read (Dict.get i s.queues)
  watch s i (c ∷ cs) =
      let rest = watch (step s c) i cs in
      if own i c then after_turn (next_event s i).1 rest else rest

  -- the events published before the stream fails or is closed, and which of the two came first
  abbrev pub log : List (Call E X) → List E × Next E X
  log [] = ([], waits)
  log (published e ∷ cs) = (e ∷ (log cs).0, (log cs).1)
  log (failed exc ∷ cs) = ([], raises exc)
  log (was_closed ∷ cs) = ([], returns)
  log (_ ∷ cs) = log cs

  -- the subscriber's iterator is not closed early
  abbrev pub Stays : ℕ → Call E X → Type 0
  Stays i (unsubscribed j) = (j == i) ≡ false
  Stays i _ = Unit

  unfoldable pub HasEnd : List (QueueItem E X) → Type 0
  HasEnd q = (read_queue q).1 ≢ waits

  read_queue-HasEnd : (q r : List (QueueItem E X)) → HasEnd q → read_queue (q ++ r) ≡ read_queue q
  unfolding HasEnd
  read_queue-HasEnd [] r h = absurd (h refl)
  read_queue-HasEnd (event e ∷ q) r h =
      ap (λ (x : List E × Next E X). (e ∷ x.0, x.1)) (read_queue-HasEnd q r h)
  read_queue-HasEnd (failure exc ∷ q) r h = refl
  read_queue-HasEnd (stream_end ∷ q) r h = refl

  -- a call that is not the subscriber's own turn
  pub watch-other :
      (s : ManagedTurnStream E X) (i : ℕ) (c : Call E X) (cs : List (Call E X))
      → own i c ≡ false
      → watch s i (c ∷ cs) ≡ watch (step s c) i cs
  unfolding watch
  watch-other s i c cs o = ground (arith, o)

  watch-taken :
      (s : ManagedTurnStream E X) (i j : ℕ) (cs : List (Call E X)) (q : List (QueueItem E X))
      → j ≡ i
      → Dict.get i s.queues ≡ some q
      → watch s i (taken j ∷ cs) ≡ after_turn (next_item s i q).1 (watch (next_item s i q).0 i cs)
  unfolding watch next_event
  watch-taken s i j cs q same h = ground (arith, same, h, nat_beq_iff j i)

  -- the subscriber's own turn
  pub watch-own :
      (s : ManagedTurnStream E X) (i : ℕ) (c : Call E X) (cs : List (Call E X))
      (q : List (QueueItem E X))
      → own i c ≡ true
      → Dict.get i s.queues ≡ some q
      → watch s i (c ∷ cs) ≡ after_turn (next_item s i q).1 (watch (next_item s i q).0 i cs)
  watch-own s i (taken j) cs q o h = watch-taken s i j cs q ((nat_beq_iff j i).0 o) h
  watch-own s i (published e) cs q o h = absurd (ground (arith, o))
  watch-own s i (failed exc) cs q o h = absurd (ground (arith, o))
  watch-own s i was_closed cs q o h = absurd (ground (arith, o))
  watch-own s i subscribed cs q o h = absurd (ground (arith, o))
  watch-own s i (unsubscribed j) cs q o h = absurd (ground (arith, o))

  pub at_put :
      (s : ManagedTurnStream E X) (i : ℕ) (q : List (QueueItem E X))
      → Dict.get i (put_queue s i q).queues ≡ some q
  at_put s i q = ground (arith, get-put i i q s.queues, nat_beq_iff i i)

  -- what is known of a state whose subscriber's queue holds its end
  unfoldable pub Ended : ℕ → ManagedTurnStream E X → List (QueueItem E X) → Type 0
  Ended i s q = IsSound s × (i ≤ s.next_subscriber_id) × (Dict.get i s.queues ≡ some q) × HasEnd q

  next_item-HasEnd :
      (s : ManagedTurnStream E X) (i : ℕ) (q : List (QueueItem E X)) (cs : List (Call E X))
      → ((t : ManagedTurnStream E X) (p : List (QueueItem E X))
          → Ended i t p
          → watch t i cs ≡ read_queue p)
      → Ended i s q
      → after_turn (next_item s i q).1 (watch (next_item s i q).0 i cs) ≡ read_queue q
  unfolding next_item Ended HasEnd
  next_item-HasEnd s i [] cs ih v = absurd (v.3 refl)
  next_item-HasEnd s i (event e ∷ q) cs ih v =
      ap (after_turn (yields e))
        (ih (put_queue s i q) q (put_queue-IsSound s i q v.0, v.1, at_put s i q, v.3))
  next_item-HasEnd s i (failure exc ∷ q) cs ih v = refl
  next_item-HasEnd s i (stream_end ∷ q) cs ih v = refl

  grown :
      (s : ManagedTurnStream E X) (i : ℕ) (q : List (QueueItem E X)) (c : Call E X)
      → Ended i s q
      → own i c ≡ false
      → (p : List (QueueItem E X)) × Ended i (step s c) p × (read_queue p ≡ read_queue q)
  unfolding Ended HasEnd
  grown s i q c (v, in_use, h, e) o =
      let (r, g) = step-Grows s c i q v in_use h o in
      let same = read_queue-HasEnd q r e in
      (
        q ++ r,
        (
          step-IsSound s c v,
          omega (arith, in_use, step-id s c),
          g,
          (λ w. e (ap (λ (x : List E × Next E X). x.1) (sym same) ∙ w)),
        ),
        same,
      )

  -- A queue that holds its end is read to it, whatever comes after.
  pub ended :
      (cs : List (Call E X)) (s : ManagedTurnStream E X) (i : ℕ) (q : List (QueueItem E X))
      → Ended i s q
      → watch s i cs ≡ read_queue q
  unfolding watch Ended
  ended [] s i q v = ap read v.2
  ended (c ∷ cs) s i q v = elim (Bool-cases (own i c)) [
    | inl o ↦ watch-own s i c cs q o v.2 ∙ next_item-HasEnd s i q cs (λ t p w. ended cs t i p w) v
    | inr o ↦
        let (p, w, same) = grown s i q c v o in
        watch-other s i c cs o ∙ ended cs (step s c) i p w ∙ same
  ]
