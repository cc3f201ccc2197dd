-- ===== src/Rpc/ServerRequests/Closing.antt =====
-- src/codex_agent_sdk/rpc/router.py: what `close` leaves of the server request router.
use codex_python_sdk_unoffic.Common.{
  ℕ, true, false, Option, some, or_else, List, [], ◌∷◌, ◌≡◌, ◌∙◌, refl, arith, nat_eq, nat_beq_iff,
  mem, mem-without, empty_of_mem, ◌&&◌, not, ◌==◌, inl, inr, Option-cases, Bool-cases,
}
use codex_python_sdk_unoffic.Common.Dict
use codex_python_sdk_unoffic.Common.Dict.{get-put}
use codex_python_sdk_unoffic.Rpc.Requests.{RpcException}
use codex_python_sdk_unoffic.Rpc.Stream
use codex_python_sdk_unoffic.Rpc.ServerRequests.{
  ServerRequestRouter, ServerRequestSubscription, close_from_router, close_one, close_each, close,
}

-- a subscription that was closed with an error: its consumer gets what is queued and then the error
abbrev pub ended_by : ServerRequestSubscription → Option RpcException → ServerRequestSubscription
ended_by s e = record s { closed = true; stream = Stream.close s.stream e }

close_one-rest :
    (r : ServerRequestRouter) (e : Option RpcException) (i : ℕ)
    → ((close_one r e i).closed ≡ r.closed)
      × ((close_one r e i).pending_requests ≡ r.pending_requests)
      × ((j : ℕ) → mem j (close_one r e i).registered ≡ (mem j r.registered && not (i == j)))
unfolding close_one
close_one-rest r e i =
    (ground arith, ground arith, λ j. ground (arith, mem-without i j r.registered))

close_each-rest :
    (r : ServerRequestRouter) (e : Option RpcException) (ids : List ℕ)
    → ((close_each r e ids).closed ≡ r.closed)
      × ((close_each r e ids).pending_requests ≡ r.pending_requests)
      × ((j : ℕ) → mem j (close_each r e ids).registered ≡ (mem j r.registered && not (mem j ids)))
unfolding close_each mem
close_each-rest r e [] = (refl, refl, λ j. ground arith)
close_each-rest r e (i ∷ ids) =
    let here = close_one-rest r e i in
    let later = close_each-rest (close_one r e i) e ids in
    (later.0 ∙ here.0, later.1 ∙ here.1, λ j. ground (arith, later.2 j, here.2 j))

-- a subscription that is closed stays as it is
close_one-kept :
    (r : ServerRequestRouter) (e : Option RpcException) (i j : ℕ) (s : ServerRequestSubscription)
    → Dict.get j r.objects ≡ some s
    → s.closed ≡ true
    → Dict.get j (close_one r e i).objects ≡ some s
unfolding close_one close_from_router
close_one-kept r e i j s h c = elim (Option-cases (Dict.get i r.objects)) [
  | inl miss ↦ rw (miss, close_one) h
  | inr (t, hit) ↦
      rw (hit, close_one)
        (ground (arith, h, c, hit, nat_beq_iff i j, get-put i j (close_from_router t e) r.objects))
]

close_each-kept :
    (r : ServerRequestRouter) (e : Option RpcException) (ids : List ℕ) (j : ℕ)
    (s : ServerRequestSubscription)
    → Dict.get j r.objects ≡ some s
    → s.closed ≡ true
    → Dict.get j (close_each r e ids).objects ≡ some s
unfolding close_each
close_each-kept r e [] j s h c = h
close_each-kept r e (i ∷ ids) j s h c =
    close_each-kept (close_one r e i) e ids j s (close_one-kept r e i j s h c) c

close_one-here :
    (r : ServerRequestRouter) (e : Option RpcException) (j : ℕ) (s : ServerRequestSubscription)
    → Dict.get j r.objects ≡ some s
    → s.closed ≡ false
    → Dict.get j (close_one r e j).objects ≡ some (ended_by s e)
unfolding close_one close_from_router
close_one-here r e j s h o =
    rw (h, close_one)
      (ground (arith, o, nat_beq_iff j j, get-put j j (close_from_router s e) r.objects))

close_one-other :
    (r : ServerRequestRouter) (e : Option RpcException) (i j : ℕ)
    → (i == j) ≡ false
    → Dict.get j (close_one r e i).objects ≡ Dict.get j r.objects
unfolding close_one
close_one-other r e i j n = elim (Option-cases (Dict.get i r.objects)) [
  | inl miss ↦ rw (miss, close_one) refl
  | inr (t, hit) ↦
      rw (hit, close_one) (ground (arith, n, get-put i j (close_from_router t e) r.objects))
]

close_each-ended :
    (r : ServerRequestRouter) (e : Option RpcException) (ids : List ℕ) (j : ℕ)
    (s : ServerRequestSubscription)
    → mem j ids ≡ true
    → Dict.get j r.objects ≡ some s
    → s.closed ≡ false
    → Dict.get j (close_each r e ids).objects ≡ some (ended_by s e)
unfolding close_each mem
close_each-ended r e [] j s m h o = absurd (ground (arith, m))
close_each-ended r e (i ∷ ids) j s m h o = elim (Bool-cases (i == j)) [
  | inl same ↦
      let at : i ≡ j = (nat_beq_iff i j).0 same in
      close_each-kept (close_one r e i) e ids j (ended_by s e) (rw at (close_one-here r e j s h o))
        refl
  | inr n ↦
      close_each-ended (close_one r e i) e ids j s (ground (arith, m, n))
        (close_one-other r e i j n ∙ h) o
]

-- what a router that was closed with an error has become
pub record IsClosed (before after : ServerRequestRouter) (e : Option RpcException) : Type 0 where
  pub closed : after.closed ≡ true
  pub no_request : after.pending_requests ≡ []
  pub no_subscription : after.registered ≡ []
  pub ended :
      (i : ℕ) (s : ServerRequestSubscription)
      → mem i before.registered ≡ true
      → Dict.get i before.objects ≡ some s
      → s.closed ≡ false
      → Dict.get i after.objects ≡ some (ended_by s e)

pub close-IsClosed : (r : ServerRequestRouter) (e : Option RpcException) → IsClosed r (close r e) e
unfolding close
close-IsClosed r e =
    let marked = record r {
      closed = true;
      terminal_error = or_else r.terminal_error e;
      pending_requests = [];
      handler_tasks = [];
    } in
    let rest = close_each-rest marked e r.registered in
    record {
      closed = rest.0;
      no_request = rest.1;
      no_subscription = empty_of_mem _ (λ j. rest.2 j ∙ ground arith);
      ended = λ i s m h o. close_each-ended marked e r.registered i s m h o;
    }
