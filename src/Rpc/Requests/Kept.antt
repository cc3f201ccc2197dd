-- ===== src/Rpc/Requests/Kept.antt =====
-- The invariant of the request registry, kept where waiters leave and futures settle.
use codex_python_sdk_unoffic.Common.{
  ℕ, ◌<◌, ℤ, String, true, none, some, [], ◌≡◌, refl, arith, inl, inr, Bool-cases, Option-cases,
  int_leb, length-set, set,
}
use codex_python_sdk_unoffic.Common.Dict
use codex_python_sdk_unoffic.Common.Dict.{
  Dict, IsKeyed, put_new, get-put, put-IsKeyed, get-remove, remove-IsKeyed,
}
use codex_python_sdk_unoffic.Rpc.Envelope.{JsonRpcId, id_eq, id_beq_iff}
use codex_python_sdk_unoffic.Rpc.Requests.{
  FinalizedRequest, FinalizedRequestStatus, FutureState, PendingJsonRpcRequest,
  JsonRpcRequestRegistry, empty, future_done, settle, settle_waiting, remember_finalized_request,
  pop_pending, pop_pending_request,
}
use codex_python_sdk_unoffic.Rpc.Requests.History.{
  length-evict-le, evict-IsKeyed, get-evict-none, get-evict-some,
}
use codex_python_sdk_unoffic.Rpc.Requests.Invariant.{IsValid, futures-IsValid}

pub remember-IsValid :
    (r : JsonRpcRequestRegistry) (i : JsonRpcId) (method : String) (status : FinalizedRequestStatus)
    → IsValid r
    → Dict.get i r.pending_requests ≡ none
    → ((n : ℤ) → i ≡ JsonRpcId.int n → int_leb n r.last_request_id ≡ true)
    → IsValid (remember_finalized_request r i method status)
unfolding remember_finalized_request
remember-IsValid r i method status v gone past = record {
  positive = v.positive;
  bounded = length-evict-le limit (Dict.put i new r.finalized_requests);
  pending_keyed = v.pending_keyed;
  finalized_keyed = evict-IsKeyed limit (Dict.put i new r.finalized_requests) keyed;
  disjoint = λ j p e.
      get-evict-none limit j (Dict.put i new r.finalized_requests)
        (ground (arith, get-put i j new r.finalized_requests, id_beq_iff i j, v.disjoint j p));
  own_id = v.own_id;
  has_future = v.has_future;
  own_future = v.own_future;
  past_pending = v.past_pending;
  past_finalized = λ n f e. ground (
    arith,
    get-evict-some limit (JsonRpcId.int n) f (Dict.put i new r.finalized_requests) keyed e,
    get-put i (JsonRpcId.int n) new r.finalized_requests,
    id_beq_iff i (JsonRpcId.int n),
    v.past_finalized n f,
    past n,
  );
}
  where
    limit : ℕ
    limit = r.finalized_history_limit

    new : FinalizedRequest
    new = record { method = method; status = status }

    keyed : IsKeyed (Dict.put i new r.finalized_requests)
    keyed = put-IsKeyed i new r.finalized_requests v.finalized_keyed

pop-IsValid : (r : JsonRpcRequestRegistry) (i : JsonRpcId) → IsValid r → IsValid (pop_pending r i)
pop-IsValid r i v = record {
  positive = v.positive;
  bounded = v.bounded;
  pending_keyed = remove-IsKeyed i r.pending_requests v.pending_keyed;
  finalized_keyed = v.finalized_keyed;
  disjoint = λ j p e. v.disjoint j p (kept j p e);
  own_id = λ j p e. v.own_id j p (kept j p e);
  has_future = λ j p e. v.has_future j p (kept j p e);
  own_future = λ j k p q e f same. v.own_future j k p q (kept j p e) (kept k q f) same;
  past_pending = λ n p e. v.past_pending n p (kept (JsonRpcId.int n) p e);
  past_finalized = v.past_finalized;
}
  where
    kept :
        (j : JsonRpcId) (p : PendingJsonRpcRequest)
        → Dict.get j (Dict.remove i r.pending_requests) ≡ some p
        → Dict.get j r.pending_requests ≡ some p
    kept j p e = ground (arith, get-remove i j r.pending_requests v.pending_keyed)

pub pop_pending_request-IsValid :
    (r : JsonRpcRequestRegistry) (i : JsonRpcId) (status : FinalizedRequestStatus)
    → IsValid r
    → IsValid (pop_pending_request r i status).0
unfolding pop_pending_request
pop_pending_request-IsValid r i status v = elim (Option-cases (Dict.get i r.pending_requests)) [
  | inl miss ↦ rw (miss, pop_pending_request) v
  | inr (p, hit) ↦
      rw (hit, pop_pending_request)
        (remember-IsValid (pop_pending r i) i p.method status (pop-IsValid r i v)
          (ground (arith, get-remove i i r.pending_requests v.pending_keyed, id_beq_iff i i))
          (λ n e. v.past_pending n p (rw e at hit)))
]

pub settle-IsValid :
    (r : JsonRpcRequestRegistry) (h : ℕ) (f : FutureState) → IsValid r → IsValid (settle r h f)
settle-IsValid r h f v =
    futures-IsValid r (set r.futures h f) v (omega (arith, length-set r.futures h f))

pub settle_waiting-IsValid :
    (r : JsonRpcRequestRegistry) (h : ℕ) (f : FutureState)
    → IsValid r
    → IsValid (settle_waiting r h f)
unfolding settle_waiting
settle_waiting-IsValid r h f v = elim (Bool-cases (future_done r h)) [
  | inl done ↦ rw done v
  | inr waits ↦ rw waits (settle-IsValid r h f v)
]

pub clear-IsValid :
    (r : JsonRpcRequestRegistry) → IsValid r → IsValid (record r { pending_requests = [] })
unfolding Dict.get
clear-IsValid r v = record {
  positive = v.positive;
  bounded = v.bounded;
  pending_keyed = tt;
  finalized_keyed = v.finalized_keyed;
  disjoint = λ i p e. cc;
  own_id = λ i p e. cc;
  has_future = λ i p e. cc;
  own_future = λ i j p q e f same. cc;
  past_pending = λ n p e. cc;
  past_finalized = v.past_finalized;
}

pub empty-IsValid : (start : ℤ) (limit : ℕ) → 0 < limit → IsValid (empty start limit)
unfolding Dict.get
empty-IsValid start limit h = record {
  positive = h;
  bounded = omega arith;
  pending_keyed = tt;
  finalized_keyed = tt;
  disjoint = λ i p e. refl;
  own_id = λ i p e. cc;
  has_future = λ i p e. cc;
  own_future = λ i j p q e f same. cc;
  past_pending = λ n p e. cc;
  past_finalized = λ n f e. cc;
}
