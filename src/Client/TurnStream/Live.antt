-- ===== src/Client/TurnStream/Live.antt =====
-- src/codex_agent_sdk/client.py: a subscriber of an open stream, call by call.
use codex_python_sdk_unoffic.Common.{
  ℕ, ◌+◌, ◌≤◌, true, false, none, some, List, [], ◌∷◌, ◌++◌, ◌≡◌, refl, sym, ap, subst, ◌∙◌, arith,
  ◌==◌, nat_eq, nat_beq_iff, if◌then◌else◌, mem, mem-without, mem-append, inl, inr, Option-cases,
}
use codex_python_sdk_unoffic.Common.Dict
use codex_python_sdk_unoffic.Common.Dict.{get-put}
use codex_python_sdk_unoffic.Client.TurnStream.{
  QueueItem, event, failure, stream_end, ManagedTurnStream, Next, waits, first_items, subscribe,
  put_each, publish, fail, close, unsubscribe, next_item, next_event,
}
use codex_python_sdk_unoffic.Client.TurnStream.Queues.{
  published, failed, was_closed, subscribed, taken, unsubscribed, IsSound, put_each-queue,
  put_each-Same, failing, closing,
}
use codex_python_sdk_unoffic.Client.TurnStream.Steps.{step-IsSound, next_event-other, step-id}
use codex_python_sdk_unoffic.Client.TurnStream.Reading.{read_queue, HasEnd, Ended}

-- A subscriber of an open stream whose queue holds events only.
pub record IsLive {E X : Type 0} (i : ℕ) (s : ManagedTurnStream E X) (q : List (QueueItem E X))
    : Type 0 where
  pub sound : IsSound s
  pub in_use : i ≤ s.next_subscriber_id
  pub at : Dict.get i s.queues ≡ some q
  pub listed : mem i s.subscribers ≡ true
  pub no_failure : s.terminal_exception ≡ none
  pub is_open : s.closed ≡ false
  pub going : (read_queue q).1 ≡ waits

module _ {E X : Type 0} where
  pub read_queue-append :
      (q r : List (QueueItem E X))
      → (read_queue q).1 ≡ waits
      → read_queue (q ++ r) ≡ ((read_queue q).0 ++ (read_queue r).0, (read_queue r).1)
  read_queue-append [] r h = refl
  read_queue-append (event e ∷ q) r h =
      ap (λ (x : List E × Next E X). (e ∷ x.0, x.1)) (read_queue-append q r h)
  read_queue-append (failure exc ∷ q) r h = absurd (ground (arith, h))
  read_queue-append (stream_end ∷ q) r h = absurd (ground (arith, h))

  sent_at :
      (s : ManagedTurnStream E X) (i : ℕ) (q : List (QueueItem E X)) (item : QueueItem E X)
      → IsLive i s q
      → (t : ManagedTurnStream E X) → t.queues ≡ s.queues
      → Dict.get i (put_each t item s.subscribers).queues ≡ some (q ++ item ∷ [])
  sent_at s i q item v t same =
      put_each-queue t item i s.subscribers q v.sound.distinct (ap (Dict.get i) same ∙ v.at)
      ∙ ap (λ b. some (if b then q ++ item ∷ [] else q)) v.listed

  open_publish :
      (s : ManagedTurnStream E X) (i : ℕ) (q : List (QueueItem E X)) (e : E)
      → IsLive i s q
      → publish s e ≡ put_each s (event e) s.subscribers
  unfolding publish
  open_publish s i q e v = ground (arith, v.no_failure, v.is_open)

  open_fail :
      (s : ManagedTurnStream E X) (i : ℕ) (q : List (QueueItem E X)) (exc : X)
      → IsLive i s q
      → fail s exc ≡ failing s exc
  unfolding fail
  open_fail s i q exc v = ground (arith, v.no_failure)

  open_close :
      (s : ManagedTurnStream E X) (i : ℕ) (q : List (QueueItem E X))
      → IsLive i s q
      → close s ≡ closing s
  unfolding close
  open_close s i q v = ground (arith, v.is_open)

  pub published-IsLive :
      (s : ManagedTurnStream E X) (i : ℕ) (q : List (QueueItem E X)) (e : E)
      → IsLive i s q
      → IsLive i (publish s e) (q ++ event e ∷ [])
  published-IsLive s i q e v =
      let same = put_each-Same s (event e) s.subscribers in
      let sent : publish s e ≡ put_each s (event e) s.subscribers = open_publish s i q e v in
      subst (λ t. IsLive i t (q ++ event e ∷ [])) (sym sent)
        (record {
          sound = subst IsSound sent (step-IsSound s (published e) v.sound);
          in_use = omega (arith, v.in_use, same.same_next);
          at = sent_at s i q (event e) v s refl;
          listed = ap (mem i) same.listed ∙ v.listed;
          no_failure = same.terminal ∙ v.no_failure;
          is_open = same.is_closed ∙ v.is_open;
          going = ap (λ (x : List E × Next E X). x.1) (read_queue-append q (event e ∷ []) v.going);
        })

  pub failed-Ended :
      (s : ManagedTurnStream E X) (i : ℕ) (q : List (QueueItem E X)) (exc : X)
      → IsLive i s q
      → Ended i (fail s exc) (q ++ failure exc ∷ [])
  unfolding Ended HasEnd
  failed-Ended s i q exc v = (
    step-IsSound s (failed exc) v.sound,
    omega (arith, v.in_use, step-id s (failed exc)),
    ap (λ (t : ManagedTurnStream E X). Dict.get i t.queues) (open_fail s i q exc v)
        ∙ sent_at s i q (failure exc) v (record s { terminal_exception = some exc }) refl,
    (λ w. absurd (
        ground (
          arith,
          w,
          ap (λ (x : List E × Next E X). x.1) (read_queue-append q (failure exc ∷ []) v.going),
        ))),
  )

  pub closed-Ended :
      (s : ManagedTurnStream E X) (i : ℕ) (q : List (QueueItem E X))
      → IsLive i s q
      → Ended i (close s) (q ++ stream_end ∷ [])
  unfolding Ended HasEnd
  closed-Ended s i q v = (
    step-IsSound s was_closed v.sound,
    omega (arith, v.in_use, step-id s was_closed),
    ap (λ (t : ManagedTurnStream E X). Dict.get i t.queues) (open_close s i q v)
        ∙ sent_at s i q stream_end v (record s { closed = true }) refl,
    (λ w. absurd (
        ground (
          arith,
          w,
          ap (λ (x : List E × Next E X). x.1) (read_queue-append q (stream_end ∷ []) v.going),
        ))),
  )

  -- another's call that sends nothing
  quiet-IsLive :
      (s t : ManagedTurnStream E X) (i : ℕ) (q : List (QueueItem E X))
      → IsLive i s q
      → IsSound t
      → i ≤ t.next_subscriber_id
      → Dict.get i t.queues ≡ Dict.get i s.queues
      → (mem i t.subscribers ≡ mem i s.subscribers)
        × (t.terminal_exception ≡ s.terminal_exception)
        × (t.closed ≡ s.closed)
      → IsLive i t q
  quiet-IsLive s t i q v sound in_use same rest = record {
    sound = sound;
    in_use = in_use;
    at = same ∙ v.at;
    listed = rest.0 ∙ v.listed;
    no_failure = rest.1 ∙ v.no_failure;
    is_open = rest.2 ∙ v.is_open;
    going = v.going;
  }

  pub subscribed-IsLive :
      (s : ManagedTurnStream E X) (i : ℕ) (q : List (QueueItem E X))
      → IsLive i s q
      → IsLive i (subscribe s).0 q
  unfolding subscribe
  subscribed-IsLive s i q v =
      let new = s.next_subscriber_id + 1 in
      quiet-IsLive s (subscribe s).0 i q v (step-IsSound s subscribed v.sound)
        (omega (arith, v.in_use, step-id s subscribed))
        (ground (arith, v.in_use, nat_beq_iff new i, get-put new i (first_items s) s.queues))
        (ground (arith, v.listed, mem-append new i s.subscribers), refl, refl)

  pub unsubscribed-IsLive :
      (s : ManagedTurnStream E X) (i j : ℕ) (q : List (QueueItem E X))
      → (j == i) ≡ false
      → IsLive i s q
      → IsLive i (unsubscribe s j) q
  unfolding unsubscribe
  unsubscribed-IsLive s i j q other v =
      quiet-IsLive s (unsubscribe s j) i q v (step-IsSound s (unsubscribed j) v.sound) v.in_use refl
        (ground (arith, other, mem-without j i s.subscribers), refl, refl)

  next_item-rest :
      (s : ManagedTurnStream E X) (i j : ℕ) (items : List (QueueItem E X))
      → (j == i) ≡ false
      → (mem i (next_item s j items).0.subscribers ≡ mem i s.subscribers)
        × ((next_item s j items).0.terminal_exception ≡ s.terminal_exception)
        × ((next_item s j items).0.closed ≡ s.closed)
  unfolding next_item unsubscribe
  next_item-rest s i j [] other = (refl, refl, refl)
  next_item-rest s i j (event e ∷ rest) other = (refl, refl, refl)
  next_item-rest s i j (failure exc ∷ rest) other =
      (ground (arith, other, mem-without j i s.subscribers), refl, refl)
  next_item-rest s i j (stream_end ∷ rest) other =
      (ground (arith, other, mem-without j i s.subscribers), refl, refl)

  pub taken-IsLive :
      (s : ManagedTurnStream E X) (i j : ℕ) (q : List (QueueItem E X))
      → (j == i) ≡ false
      → IsLive i s q
      → IsLive i (next_event s j).0 q
  unfolding next_event
  taken-IsLive s i j q other v =
      quiet-IsLive s (next_event s j).0 i q v (step-IsSound s (taken j) v.sound)
        (omega (arith, v.in_use, step-id s (taken j))) (next_event-other s i j other)
        (elim (Option-cases (Dict.get j s.queues)) [
          | inl miss ↦ rw (miss, next_event) (refl, refl, refl)
          | inr (items, e) ↦ rw (e, next_event) (next_item-rest s i j items other)
        ])
