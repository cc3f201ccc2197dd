-- ===== src/Client/TurnStream/Steps.antt =====
-- src/codex_agent_sdk/client.py: what each call on a turn's stream keeps.
use codex_python_sdk_unoffic.Common.{
  ℕ, ◌+◌, ◌≤◌, Bool, true, false, some, List, [], ◌∷◌, ◌++◌, ◌≡◌, ◌⊎◌, refl, sym, ap, subst, ◌∙◌,
  arith, ◌==◌, nat_eq, nat_beq_iff, mem, mem-without, mem-append, IsDistinct, without-IsDistinct,
  append-IsDistinct, inl, inr, Bool-cases, Option-cases, append-nil,
}
use codex_python_sdk_unoffic.Common.Dict
use codex_python_sdk_unoffic.Common.Dict.{get-put}
use codex_python_sdk_unoffic.Client.TurnStream.{
  QueueItem, event, failure, stream_end, ManagedTurnStream, first_items, subscribe, put_queue,
  put_each, publish, fail, close, unsubscribe, next_item, next_event,
}
use codex_python_sdk_unoffic.Client.TurnStream.Queues.{
  Call, published, failed, was_closed, subscribed, taken, unsubscribed, IsSound,
  SameButQueues-IsSound, step, put_each-Same, put_each-queue, failing, closing,
}

module _ {E X : Type 0} where
  publish-cases :
      (s : ManagedTurnStream E X) (e : E)
      → (publish s e ≡ s) ⊎ (publish s e ≡ put_each s (event e) s.subscribers)
  unfolding publish
  publish-cases s e = ground arith

  pub fail-cases :
      (s : ManagedTurnStream E X) (exc : X) → (fail s exc ≡ s) ⊎ (fail s exc ≡ failing s exc)
  unfolding fail
  fail-cases s exc = ground arith

  pub close-cases : (s : ManagedTurnStream E X) → (close s ≡ s) ⊎ (close s ≡ closing s)
  unfolding close
  close-cases s = ground arith

  unsubscribe-IsSound : (s : ManagedTurnStream E X) (j : ℕ) → IsSound s → IsSound (unsubscribe s j)
  unfolding unsubscribe
  unsubscribe-IsSound s j v = record {
    distinct = without-IsDistinct j s.subscribers v.distinct;
    handed_out = λ k m. v.handed_out k (ground (arith, m, mem-without j k s.subscribers));
  }

  pub put_queue-IsSound :
      (s : ManagedTurnStream E X) (j : ℕ) (items : List (QueueItem E X))
      → IsSound s
      → IsSound (put_queue s j items)
  put_queue-IsSound s j items v = record { distinct = v.distinct; handed_out = v.handed_out }

  next_item-IsSound :
      (s : ManagedTurnStream E X) (j : ℕ) (items : List (QueueItem E X))
      → IsSound s
      → IsSound (next_item s j items).0
  unfolding next_item
  next_item-IsSound s j [] v = v
  next_item-IsSound s j (event e ∷ rest) v = put_queue-IsSound s j rest v
  next_item-IsSound s j (failure exc ∷ rest) v =
      unsubscribe-IsSound (put_queue s j rest) j (put_queue-IsSound s j rest v)
  next_item-IsSound s j (stream_end ∷ rest) v =
      unsubscribe-IsSound (put_queue s j rest) j (put_queue-IsSound s j rest v)

  next_event-IsSound : (s : ManagedTurnStream E X) (j : ℕ) → IsSound s → IsSound (next_event s j).0
  unfolding next_event
  next_event-IsSound s j v = elim (Option-cases (Dict.get j s.queues)) [
    | inl miss ↦ rw (miss, next_event) v
    | inr (items, e) ↦ rw (e, next_event) (next_item-IsSound s j items v)
  ]

  pub new_id-free :
      (s : ManagedTurnStream E X) → IsSound s → mem (s.next_subscriber_id + 1) s.subscribers ≡ false
  new_id-free s v = elim (Bool-cases (mem (s.next_subscriber_id + 1) s.subscribers)) [
    | inl m ↦ absurd (omega (arith, v.handed_out (s.next_subscriber_id + 1) m))
    | inr free ↦ free
  ]

  pub subscribe-IsSound : (s : ManagedTurnStream E X) → IsSound s → IsSound (subscribe s).0
  unfolding subscribe
  subscribe-IsSound s v = record {
    distinct =
        append-IsDistinct (s.next_subscriber_id + 1) s.subscribers v.distinct (new_id-free s v);
    handed_out = λ j m. elim (Bool-cases (s.next_subscriber_id + 1 == j)) [
      | inl same ↦ ground (arith, same, nat_beq_iff (s.next_subscriber_id + 1) j)
      | inr other ↦ omega (
        arith,
        v.handed_out j
            (ground (arith, m, other, mem-append (s.next_subscriber_id + 1) j s.subscribers)),
      )
    ];
  }

  pub step-IsSound : (s : ManagedTurnStream E X) (c : Call E X) → IsSound s → IsSound (step s c)
  step-IsSound s (published e) v = elim (publish-cases s e) [
    | inl h ↦ subst IsSound (sym h) v
    | inr h ↦
        subst IsSound (sym h)
          (SameButQueues-IsSound s _ (put_each-Same s (event e) s.subscribers) v)
  ]
  step-IsSound s (failed exc) v = elim (fail-cases s exc) [
    | inl h ↦ subst IsSound (sym h) v
    | inr h ↦
        let t = record s { terminal_exception = some exc } in
        subst IsSound (sym h) (
          SameButQueues-IsSound t _ (put_each-Same t (failure exc) s.subscribers)
            (record { distinct = v.distinct; handed_out = v.handed_out }))
  ]
  step-IsSound s was_closed v = elim (close-cases s) [
    | inl h ↦ subst IsSound (sym h) v
    | inr h ↦
        let t = record s { closed = true } in
        subst IsSound (sym h) (
          SameButQueues-IsSound t _ (put_each-Same t stream_end s.subscribers)
            (record { distinct = v.distinct; handed_out = v.handed_out }))
  ]
  step-IsSound s subscribed v = subscribe-IsSound s v
  step-IsSound s (taken j) v = next_event-IsSound s j v
  step-IsSound s (unsubscribed j) v = unsubscribe-IsSound s j v

  -- A queue that another's call leaves as it was, but for items at its end.
  abbrev pub Grows : ℕ → List (QueueItem E X) → ManagedTurnStream E X → Type 0
  Grows i q t = (r : List (QueueItem E X)) × (Dict.get i t.queues ≡ some (q ++ r))

  stays :
      (i : ℕ) (q : List (QueueItem E X)) (t : ManagedTurnStream E X)
      → Dict.get i t.queues ≡ some q
      → Grows i q t
  stays i q t h = ([], h ∙ ap some (sym (append-nil q)))

  put_each-Grows :
      (s : ManagedTurnStream E X) (item : QueueItem E X) (i : ℕ) (q : List (QueueItem E X))
      → IsDistinct s.subscribers
      → Dict.get i s.queues ≡ some q
      → Grows i q (put_each s item s.subscribers)
  put_each-Grows s item i q d h = elim (Bool-cases (mem i s.subscribers)) [
    | inl m ↦ (item ∷ [], ground (arith, m, put_each-queue s item i s.subscribers q d h))
    | inr m ↦
        stays i q (put_each s item s.subscribers)
          (ground (arith, m, put_each-queue s item i s.subscribers q d h))
  ]

  pub next_event-other :
      (s : ManagedTurnStream E X) (i j : ℕ)
      → (j == i) ≡ false
      → Dict.get i (next_event s j).0.queues ≡ Dict.get i s.queues
  unfolding next_event next_item unsubscribe
  next_event-other s i j other = elim (Option-cases (Dict.get j s.queues)) [
    | inl miss ↦ ground (arith, miss)
    | inr ([], e) ↦ ground (arith, e)
    | inr (item ∷ rest, e) ↦ ground (arith, e, other, get-put j i rest s.queues)
  ]

  abbrev pub own : ℕ → Call E X → Bool
  own i (taken j) = j == i
  own i _ = false

  pub step-Grows :
      (s : ManagedTurnStream E X) (c : Call E X) (i : ℕ) (q : List (QueueItem E X))
      → IsSound s
      → i ≤ s.next_subscriber_id
      → Dict.get i s.queues ≡ some q
      → own i c ≡ false
      → Grows i q (step s c)
  unfolding subscribe unsubscribe
  step-Grows s (published e) i q v in_use h o = elim (publish-cases s e) [
    | inl same ↦ subst (Grows i q) (sym same) (stays i q s h)
    | inr sent ↦ subst (Grows i q) (sym sent) (put_each-Grows s (event e) i q v.distinct h)
  ]
  step-Grows s (failed exc) i q v in_use h o = elim (fail-cases s exc) [
    | inl same ↦ subst (Grows i q) (sym same) (stays i q s h)
    | inr sent ↦
        subst (Grows i q) (sym sent) (
          put_each-Grows (record s { terminal_exception = some exc }) (failure exc) i q v.distinct
            h)
  ]
  step-Grows s was_closed i q v in_use h o = elim (close-cases s) [
    | inl same ↦ subst (Grows i q) (sym same) (stays i q s h)
    | inr sent ↦
        subst (Grows i q) (sym sent)
          (put_each-Grows (record s { closed = true }) stream_end i q v.distinct h)
  ]
  step-Grows s subscribed i q v in_use h o = stays i q (subscribe s).0 (
      ground (
        arith,
        in_use,
        h,
        nat_beq_iff (s.next_subscriber_id + 1) i,
        get-put (s.next_subscriber_id + 1) i (first_items s) s.queues,
      ))
  step-Grows s (taken j) i q v in_use h o =
      stays i q (next_event s j).0 (next_event-other s i j o ∙ h)
  step-Grows s (unsubscribed j) i q v in_use h o = stays i q (unsubscribe s j) h

  next_item-id :
      (s : ManagedTurnStream E X) (j : ℕ) (items : List (QueueItem E X))
      → (next_item s j items).0.next_subscriber_id ≡ s.next_subscriber_id
  unfolding next_item unsubscribe
  next_item-id s j [] = refl
  next_item-id s j (event e ∷ rest) = refl
  next_item-id s j (failure exc ∷ rest) = refl
  next_item-id s j (stream_end ∷ rest) = refl

  next_event-id :
      (s : ManagedTurnStream E X) (j : ℕ)
      → (next_event s j).0.next_subscriber_id ≡ s.next_subscriber_id
  unfolding next_event
  next_event-id s j = elim (Option-cases (Dict.get j s.queues)) [
    | inl miss ↦ rw (miss, next_event) refl
    | inr (items, e) ↦ rw (e, next_event) (next_item-id s j items)
  ]

  same_id :
      (s t u : ManagedTurnStream E X)
      → (t ≡ s) ⊎ (t ≡ u)
      → u.next_subscriber_id ≡ s.next_subscriber_id
      → s.next_subscriber_id ≤ t.next_subscriber_id
  same_id s t u (inl h) same =
      omega (arith, ap (λ (x : ManagedTurnStream E X). x.next_subscriber_id) h)
  same_id s t u (inr h) same =
      omega (arith, same, ap (λ (x : ManagedTurnStream E X). x.next_subscriber_id) h)

  pub step-id :
      (s : ManagedTurnStream E X) (c : Call E X)
      → s.next_subscriber_id ≤ (step s c).next_subscriber_id
  unfolding subscribe unsubscribe
  step-id s (published e) =
      same_id s (publish s e) _ (publish-cases s e)
        (put_each-Same s (event e) s.subscribers).same_next
  step-id s (failed exc) =
      same_id s (fail s exc) _ (fail-cases s exc)
        (put_each-Same (record s { terminal_exception = some exc }) (failure exc)
          s.subscribers).same_next
  step-id s was_closed =
      same_id s (close s) _ (close-cases s)
        (put_each-Same (record s { closed = true }) stream_end s.subscribers).same_next
  step-id s subscribed = omega arith
  step-id s (taken j) = omega (arith, next_event-id s j)
  step-id s (unsubscribed j) = omega arith
