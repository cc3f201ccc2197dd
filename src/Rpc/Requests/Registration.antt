-- ===== src/Rpc/Requests/Registration.antt =====
-- Registering a request: when it is accepted, and what it leaves behind.
use codex_python_sdk_unoffic.Common.{
  String, true, false, none, some, ◌≡◌, ◌≢◌, ◌↔◌, refl, arith, inl, inr, Bool-cases, Option-cases,
  get_elem?-append_new, get_elem?-length, length, int_ltb, int_suc, int_leb, int_suc_above,
}
use codex_python_sdk_unoffic.Common.Dict
use codex_python_sdk_unoffic.Common.Dict.{get-put, get-remove}
use codex_python_sdk_unoffic.Rpc.Envelope.{JsonRpcId, id_eq, id_beq_iff}
use codex_python_sdk_unoffic.Rpc.Requests.{
  duplicate_request_id, returned, raised, FutureState, PendingJsonRpcRequest,
  JsonRpcRequestRegistry, is_taken, future_state, observe, next_id, allocate, admit,
  register_request,
}
use codex_python_sdk_unoffic.Rpc.Requests.Invariant.{IsValid}

abbrev pub fresh_id : JsonRpcRequestRegistry → JsonRpcId
fresh_id r = JsonRpcId.int (int_suc r.last_request_id)

fresh-free : (r : JsonRpcRequestRegistry) → IsValid r → is_taken r (fresh_id r) ≡ false
fresh-free r v = ground (arith, not_pending, not_finalized)
  where
    clash : int_leb (int_suc r.last_request_id) r.last_request_id ≡ true → ⊥
    clash h = cc (int_suc_above r.last_request_id)

    not_pending : Dict.get (fresh_id r) r.pending_requests ≡ none
    not_pending = elim (Option-cases (Dict.get (fresh_id r) r.pending_requests)) [
      | inl e ↦ e
      | inr (p, e) ↦ absurd (clash (v.past_pending (int_suc r.last_request_id) p e))
    ]

    not_finalized : Dict.get (fresh_id r) r.finalized_requests ≡ none
    not_finalized = elim (Option-cases (Dict.get (fresh_id r) r.finalized_requests)) [
      | inl e ↦ e
      | inr (f, e) ↦ absurd (clash (v.past_finalized (int_suc r.last_request_id) f e))
    ]

-- A registration that names no id is never refused: it hands out the id after the allocator's
-- position, which is then on the table with the caller's method and a new future that waits.
pub register_request_fresh :
    (r : JsonRpcRequestRegistry) (method : String)
    → IsValid r
    → (p : PendingJsonRpcRequest) × ((register_request r method JsonRpcId.null).1 ≡ returned p)
      × (p.request_id ≡ fresh_id r)
      × (p.method ≡ method)
      × (Dict.get (fresh_id r) (register_request r method JsonRpcId.null).0.pending_requests
          ≡ some p)
      × (future_state (register_request r method JsonRpcId.null).0 p.future
          ≡ some FutureState.waiting)
      × (future_state r p.future ≡ none)
unfolding register_request admit allocate next_id
register_request_fresh r method v = (
  p,
  rw (fresh-free r v) refl,
  refl,
  refl,
  rw (fresh-free r v) (
      ground (
        arith,
        get-put (fresh_id r) (fresh_id r) p r.pending_requests,
        id_beq_iff (fresh_id r) (fresh_id r),
      )),
  rw (fresh-free r v) (get_elem?-append_new r.futures FutureState.waiting),
  get_elem?-length r.futures,
)
  where
    p : PendingJsonRpcRequest
    p = record { request_id = fresh_id r; method = method; future = length r.futures }

admit_lem :
    (r : JsonRpcRequestRegistry) (method : String) (i : JsonRpcId)
    → (((admit r method i).1 ≡ raised (duplicate_request_id i method)) ↔ (is_taken r i ≡ true))
      × (is_taken r i ≡ true
          → ((admit r method i).0.pending_requests ≡ r.pending_requests)
            × ((admit r method i).0.finalized_requests ≡ r.finalized_requests))
unfolding admit
admit_lem r method i = ((λ h. ground arith, λ t. rw t refl), λ t. rw t (refl, refl))

-- A registration under a given id is refused as a duplicate exactly when the id waits or is in the
-- history, and a refusal leaves both tables as they were.
pub register_request_given :
    (r : JsonRpcRequestRegistry) (method : String) (i : JsonRpcId)
    → i ≢ JsonRpcId.null
    → (((register_request r method i).1 ≡ raised (duplicate_request_id i method))
        ↔ (is_taken r i ≡ true))
      × (is_taken r i ≡ true
          → ((register_request r method i).0.pending_requests ≡ r.pending_requests)
            × ((register_request r method i).0.finalized_requests ≡ r.finalized_requests))
unfolding register_request allocate observe
register_request_given r method JsonRpcId.null n = absurd (n refl)
register_request_given r method (JsonRpcId.int k) n =
    elim (Bool-cases (int_ltb r.last_request_id k)) [
      | inl above ↦ rw above (admit_lem (record r { last_request_id = k }) method (JsonRpcId.int k))
      | inr below ↦ rw below (admit_lem r method (JsonRpcId.int k))
    ]
register_request_given r method (JsonRpcId.text t) n = admit_lem r method (JsonRpcId.text t)
