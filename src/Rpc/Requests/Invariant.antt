-- ===== src/Rpc/Requests/Invariant.antt =====
-- The invariant of the request registry, kept by observing, allocating and registering.
use codex_python_sdk_unoffic.Common.{
  ◌≤◌, ◌<◌, ℤ, String, true, false, none, some, List, [], ◌∷◌, ◌++◌, ◌≡◌, arith, inl, inr,
  Bool-cases, int_leb, int_ltb, int_suc, int_leb_suc, int_leb_trans, int_le_of_lt, int_le_of_not_lt,
  int_leb_refl, length, length-append,
}
use codex_python_sdk_unoffic.Common.Dict
use codex_python_sdk_unoffic.Common.Dict.{
  Dict, IsKeyed, put_new, get-put, put-IsKeyed, get-remove, remove-IsKeyed,
}
use codex_python_sdk_unoffic.Rpc.Envelope.{JsonRpcId, id_eq, id_beq_iff}
use codex_python_sdk_unoffic.Rpc.Requests.{
  FinalizedRequest, FutureState, PendingJsonRpcRequest, JsonRpcRequestRegistry, is_taken, observe,
  allocate, admit, register_request,
}

-- The ids of the two tables are disjoint, each id names one waiter, each waiter has its own
-- future, the history is within its limit, and the allocator is past every integer id.
pub record IsValid (r : JsonRpcRequestRegistry) : Type 0 where
  pub positive : 0 < r.finalized_history_limit
  pub bounded : length r.finalized_requests ≤ r.finalized_history_limit
  pub pending_keyed : IsKeyed r.pending_requests
  pub finalized_keyed : IsKeyed r.finalized_requests
  pub disjoint :
      (i : JsonRpcId) (p : PendingJsonRpcRequest)
      → Dict.get i r.pending_requests ≡ some p
      → Dict.get i r.finalized_requests ≡ none
  pub own_id :
      (i : JsonRpcId) (p : PendingJsonRpcRequest)
      → Dict.get i r.pending_requests ≡ some p
      → p.request_id ≡ i
  pub has_future :
      (i : JsonRpcId) (p : PendingJsonRpcRequest)
      → Dict.get i r.pending_requests ≡ some p
      → p.future < length r.futures
  pub own_future :
      (i j : JsonRpcId) (p q : PendingJsonRpcRequest)
      → Dict.get i r.pending_requests ≡ some p
      → Dict.get j r.pending_requests ≡ some q
      → p.future ≡ q.future
      → i ≡ j
  pub past_pending :
      (n : ℤ) (p : PendingJsonRpcRequest)
      → Dict.get (JsonRpcId.int n) r.pending_requests ≡ some p
      → int_leb n r.last_request_id ≡ true
  pub past_finalized :
      (n : ℤ) (f : FinalizedRequest)
      → Dict.get (JsonRpcId.int n) r.finalized_requests ≡ some f
      → int_leb n r.last_request_id ≡ true

-- A later position of the allocator keeps the invariant.
advance-IsValid :
    (r : JsonRpcRequestRegistry) (last : ℤ)
    → IsValid r
    → int_leb r.last_request_id last ≡ true
    → IsValid (record r { last_request_id = last })
advance-IsValid r last v h = record {
  positive = v.positive;
  bounded = v.bounded;
  pending_keyed = v.pending_keyed;
  finalized_keyed = v.finalized_keyed;
  disjoint = v.disjoint;
  own_id = v.own_id;
  has_future = v.has_future;
  own_future = v.own_future;
  past_pending = λ n p e. int_leb_trans n r.last_request_id last (v.past_pending n p e) h;
  past_finalized = λ n f e. int_leb_trans n r.last_request_id last (v.past_finalized n f e) h;
}

-- New states of the futures keep it, if none is lost.
pub futures-IsValid :
    (r : JsonRpcRequestRegistry) (fs : List FutureState)
    → IsValid r
    → length r.futures ≤ length fs
    → IsValid (record r { futures = fs })
futures-IsValid r fs v h = record {
  positive = v.positive;
  bounded = v.bounded;
  pending_keyed = v.pending_keyed;
  finalized_keyed = v.finalized_keyed;
  disjoint = v.disjoint;
  own_id = v.own_id;
  has_future = λ i p e. omega (arith, v.has_future i p e);
  own_future = v.own_future;
  past_pending = v.past_pending;
  past_finalized = v.past_finalized;
}

pub observe-IsValid :
    (r : JsonRpcRequestRegistry) (i : JsonRpcId) → IsValid r → IsValid (observe r i)
unfolding observe
observe-IsValid r JsonRpcId.null v = v
observe-IsValid r (JsonRpcId.text s) v = v
observe-IsValid r (JsonRpcId.int n) v = elim (Bool-cases (int_ltb r.last_request_id n)) [
  | inl above ↦ rw above (advance-IsValid r n v (int_le_of_lt r.last_request_id n above))
  | inr below ↦ rw below v
]

pub allocate-IsValid :
    (r : JsonRpcRequestRegistry) (i : JsonRpcId) → IsValid r → IsValid (allocate r i).0
unfolding allocate
allocate-IsValid r JsonRpcId.null v =
    advance-IsValid r (int_suc r.last_request_id) v
      (int_leb_suc r.last_request_id r.last_request_id (int_leb_refl r.last_request_id))
allocate-IsValid r (JsonRpcId.text s) v = observe-IsValid r (JsonRpcId.text s) v
allocate-IsValid r (JsonRpcId.int n) v = observe-IsValid r (JsonRpcId.int n) v

-- The id that `allocate` hands out is within the allocator's position.
past_allocated :
    (r : JsonRpcRequestRegistry) (i : JsonRpcId) (n : ℤ)
    → (allocate r i).1 ≡ JsonRpcId.int n
    → int_leb n (allocate r i).0.last_request_id ≡ true
unfolding allocate
past_allocated r JsonRpcId.null n h = ground (arith, int_leb_refl (int_suc r.last_request_id))
past_allocated r (JsonRpcId.text s) n h = cc
past_allocated r (JsonRpcId.int m) n h =
    ground (arith, int_leb_refl m, int_le_of_not_lt m r.last_request_id)

-- A free id with a future of its own joins the waiters.
insert-IsValid :
    (r : JsonRpcRequestRegistry) (i : JsonRpcId) (method : String)
    → IsValid r
    → is_taken r i ≡ false
    → ((n : ℤ) → i ≡ JsonRpcId.int n → int_leb n r.last_request_id ≡ true)
    → IsValid (record r {
      futures = r.futures ++ FutureState.waiting ∷ [];
      pending_requests =
          Dict.put i
            (record { request_id = i; method = method; future = length r.futures })
            r.pending_requests;
    })
insert-IsValid r i method v free past = record {
  positive = v.positive;
  bounded = v.bounded;
  pending_keyed = put-IsKeyed i _ r.pending_requests v.pending_keyed;
  finalized_keyed = v.finalized_keyed;
  disjoint =
      λ j p e. ground (arith, get-put i j new r.pending_requests, id_beq_iff i j, v.disjoint j p);
  own_id =
      λ j p e. ground (arith, get-put i j new r.pending_requests, id_beq_iff i j, v.own_id j p);
  has_future = λ j p e. ground (
    arith,
    get-put i j new r.pending_requests,
    id_beq_iff i j,
    v.has_future j p,
    length-append r.futures (FutureState.waiting ∷ []),
  );
  own_future = λ j k p q e f same. ground (
    arith,
    get-put i j new r.pending_requests,
    id_beq_iff i j,
    get-put i k new r.pending_requests,
    id_beq_iff i k,
    v.own_future j k p q,
    v.has_future j p,
    v.has_future k q,
  );
  past_pending = λ n p e. ground (
    arith,
    get-put i (JsonRpcId.int n) new r.pending_requests,
    id_beq_iff i (JsonRpcId.int n),
    v.past_pending n p,
    past n,
  );
  past_finalized = v.past_finalized;
}
  where
    new : PendingJsonRpcRequest
    new = record { request_id = i; method = method; future = length r.futures }

admit-IsValid :
    (r : JsonRpcRequestRegistry) (method : String) (i : JsonRpcId)
    → IsValid r
    → ((n : ℤ) → i ≡ JsonRpcId.int n → int_leb n r.last_request_id ≡ true)
    → IsValid (admit r method i).0
unfolding admit
admit-IsValid r method i v past = elim (Bool-cases (is_taken r i)) [
  | inl taken ↦ rw (taken) (
      futures-IsValid r (r.futures ++ FutureState.waiting ∷ []) v
        (omega (arith, length-append r.futures (FutureState.waiting ∷ []))))
  | inr free ↦ rw (free) (insert-IsValid r i method v free past)
]

-- Registration keeps the invariant, whether it is accepted or refused.
pub register_request-IsValid :
    (r : JsonRpcRequestRegistry) (method : String) (i : JsonRpcId)
    → IsValid r
    → IsValid (register_request r method i).0
unfolding register_request
register_request-IsValid r method i v =
    admit-IsValid (allocate r i).0 method (allocate r i).1 (allocate-IsValid r i v)
      (past_allocated r i)
