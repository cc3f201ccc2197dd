-- ===== src/Client/TurnStream/Queues.antt =====
-- src/codex_agent_sdk/client.py: what each call on a turn's stream does to one queue.
use codex_python_sdk_unoffic.Common.{
  ℕ, ◌≤◌, true, some, List, [], ◌∷◌, ◌++◌, ◌≡◌, refl, sym, ap, subst, ◌∙◌, arith, ◌==◌, nat_eq,
  nat_beq_iff, if◌then◌else◌, mem, IsDistinct, inl, inr, Bool-cases, Option-cases,
}
use codex_python_sdk_unoffic.Common.Dict
use codex_python_sdk_unoffic.Common.Dict.{get-put}
use codex_python_sdk_unoffic.Client.TurnStream.{
  QueueItem, failure, stream_end, ManagedTurnStream, subscribe, put_nowait, put_each, publish, fail,
  close, unsubscribe, next_event,
}

pub data Call (E X : Type 0) : Type 0 where
  published : E → Call E X
  failed : X → Call E X
  was_closed : Call E X
  subscribed : Call E X
  taken unsubscribed : ℕ → Call E X

-- Each subscriber is listed once, and has an id that was handed out.
pub record IsSound {E X : Type 0} (s : ManagedTurnStream E X) : Type 0 where
  pub distinct : IsDistinct s.subscribers
  pub handed_out : (j : ℕ) → mem j s.subscribers ≡ true → j ≤ s.next_subscriber_id

-- the two differ in their queues at most
pub record SameButQueues {E X : Type 0} (s t : ManagedTurnStream E X) : Type 0 where
  pub same_next : t.next_subscriber_id ≡ s.next_subscriber_id
  pub listed : t.subscribers ≡ s.subscribers
  pub terminal : t.terminal_exception ≡ s.terminal_exception
  pub is_closed : t.closed ≡ s.closed

module _ {E X : Type 0} where
  abbrev pub step : ManagedTurnStream E X → Call E X → ManagedTurnStream E X
  step s (published e) = publish s e
  step s (failed exc) = fail s exc
  step s was_closed = close s
  step s subscribed = (subscribe s).0
  step s (taken j) = (next_event s j).0
  step s (unsubscribed j) = unsubscribe s j

  pub SameButQueues-IsSound :
      (s t : ManagedTurnStream E X) → SameButQueues s t → IsSound s → IsSound t
  SameButQueues-IsSound s t same v = record {
    distinct = subst IsDistinct (sym same.listed) v.distinct;
    handed_out = λ j m.
        subst (λ n. j ≤ n) (sym same.same_next) (v.handed_out j (ap (mem j) (sym same.listed) ∙ m));
  }

  put_nowait-Same :
      (s : ManagedTurnStream E X) (item : QueueItem E X) (j : ℕ)
      → SameButQueues s (put_nowait s item j)
  unfolding put_nowait
  put_nowait-Same s item j = record {
    same_next = ground arith;
    listed = ground arith;
    terminal = ground arith;
    is_closed = ground arith;
  }

  put_nowait-queue :
      (s : ManagedTurnStream E X) (item : QueueItem E X) (i j : ℕ) (q : List (QueueItem E X))
      → Dict.get i s.queues ≡ some q
      → Dict.get i (put_nowait s item j).queues ≡ some (if j == i then q ++ item ∷ [] else q)
  unfolding put_nowait
  put_nowait-queue s item i j q h = elim (Option-cases (Dict.get j s.queues)) [
    | inl miss ↦ ground (arith, miss, h, nat_beq_iff j i)
    | inr (p, e) ↦ ground (arith, e, h, nat_beq_iff j i, get-put j i (p ++ item ∷ []) s.queues)
  ]

  pub put_each-Same :
      (s : ManagedTurnStream E X) (item : QueueItem E X) (ids : List ℕ)
      → SameButQueues s (put_each s item ids)
  unfolding put_each
  put_each-Same s item [] = record {
    same_next = refl;
    listed = refl;
    terminal = refl;
    is_closed = refl;
  }
  put_each-Same s item (j ∷ ids) =
      let first = put_nowait-Same s item j in
      let rest = put_each-Same (put_nowait s item j) item ids in
      record {
        same_next = rest.same_next ∙ first.same_next;
        listed = rest.listed ∙ first.listed;
        terminal = rest.terminal ∙ first.terminal;
        is_closed = rest.is_closed ∙ first.is_closed;
      }

  -- one item for each subscriber that is listed
  pub put_each-queue :
      (s : ManagedTurnStream E X) (item : QueueItem E X) (i : ℕ) (ids : List ℕ)
      (q : List (QueueItem E X))
      → IsDistinct ids
      → Dict.get i s.queues ≡ some q
      → Dict.get i (put_each s item ids).queues ≡ some (if mem i ids then q ++ item ∷ [] else q)
  unfolding put_each mem
  put_each-queue s item i [] q d h = h
  put_each-queue s item i (j ∷ ids) q d h =
      let first = put_nowait-queue s item i j q h in
      elim (Bool-cases (j == i)) [
        | inl same ↦ ground (
          arith,
          same,
          d.0,
          nat_beq_iff j i,
          put_each-queue (put_nowait s item j) item i ids (q ++ item ∷ []) d.1
              (ground (arith, first, same)),
        )
        | inr other ↦ ground (
          arith,
          other,
          put_each-queue (put_nowait s item j) item i ids q d.1 (ground (arith, first, other)),
        )
      ]

  abbrev pub failing : ManagedTurnStream E X → X → ManagedTurnStream E X
  failing s exc = put_each (record s { terminal_exception = some exc }) (failure exc) s.subscribers

  abbrev pub closing : ManagedTurnStream E X → ManagedTurnStream E X
  closing s = put_each (record s { closed = true }) stream_end s.subscribers
