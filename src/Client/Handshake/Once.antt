-- ===== src/Client/Handshake/Once.antt =====
-- src/codex_agent_sdk/client.py: the handshake is run to its end once, and nothing is sent before.
use codex_python_sdk_unoffic.Common.{
  String, Option, none, some, some-injective, ◌≡◌, ◌≢◌, ◌↔◌, ◌⊎◌, refl, sym, subst, ◌∙◌, arith, inl,
  inr, string_eq, eq_iff,
}
use codex_python_sdk_unoffic.Json.{Json}
use codex_python_sdk_unoffic.Rpc.Requests.{RpcException}
use codex_python_sdk_unoffic.Client.Handshake.{
  initialized, closed, absent, running, AppServerClient, new_client, ClientError, unavailable,
  Initialize, raises, create_task, initialize_alone, initialize, handshake_done, handshake_fails,
  handshake_gone, close, require_initialized, initialize_refused, guard_outbound_request_method,
  guard_outbound_notification_method,
}

-- what a caller, the handshake's task or `close` does between two suspensions
pub data Step (c : AppServerClient) : AppServerClient → Type 0 where
  initialize_called : (e : Option RpcException) → Step c (initialize c e).0
  done : (v : Json) → c.initialize_task ≡ running → Step c (handshake_done c v)
  fails : c.initialize_task ≡ running → Step c (handshake_fails c)
  gone : Step c (handshake_gone c)
  was_closed : Step c (close c)

pub data Reach (c : AppServerClient) : AppServerClient → Type 0 where
  here : Reach c c
  next : {d e : AppServerClient} → Reach c d → Step d e → Reach c e

-- The handshake has ended with a result: no task runs, and the client is initialized, or was closed
-- since.
pub record IsDone (c : AppServerClient) (v : Json) : Type 0 where
  pub result : c.initialize_result ≡ some v
  pub no_task : c.initialize_task ≡ absent
  pub state : (c.handshake_state ≡ initialized) ⊎ (c.handshake_state ≡ closed)

-- A client that is initialized, or holds a result, is done.
pub record IsBefore (c : AppServerClient) : Type 0 where
  pub no_result : c.initialize_result ≡ none
  pub not_yet : c.handshake_state ≢ initialized

abbrev pub IsSound : AppServerClient → Type 0
IsSound c = IsBefore c ⊎ ((v : Json) × IsDone c v)

-- a second call raises and changes nothing
second_call :
    (c : AppServerClient) (e : Option RpcException) (v : Json)
    → IsDone c v
    → (x : ClientError) × (initialize c e ≡ (c, raises x))
unfolding initialize initialize_alone unavailable
second_call c e v d = elim d.state [
  | inl h ↦ (ClientError.already_initialized, ground (arith, h))
  | inr h ↦ (ClientError.transport_closed, ground (arith, h, d.no_task))
]

initialize-IsDone :
    (c : AppServerClient) (e : Option RpcException) (v : Json)
    → IsDone c v
    → IsDone (initialize c e).0 v
initialize-IsDone c e v d =
    subst (λ (x : AppServerClient × Initialize). IsDone x.0 v) (sym (second_call c e v d).1) d

close-IsDone : (c : AppServerClient) (v : Json) → IsDone c v → IsDone (close c) v
unfolding close
close-IsDone c v d = elim d.state [
  | inl h ↦ record {
    result = ground (arith, d.result, h);
    no_task = ground (arith, d.no_task, h);
    state = inr (ground (arith, h));
  }
  | inr h ↦ record {
    result = ground (arith, d.result, h);
    no_task = ground (arith, d.no_task, h);
    state = inr (ground (arith, h));
  }
]

Step-IsDone : {c d : AppServerClient} → Step c d → (v : Json) → IsDone c v → IsDone d v
unfolding handshake_gone
Step-IsDone {c} (initialize_called e) v d = initialize-IsDone c e v d
Step-IsDone {c} (done w task) v d = absurd (ground (arith, task, d.no_task))
Step-IsDone {c} (fails task) v d = absurd (ground (arith, task, d.no_task))
Step-IsDone {c} gone v d = record { result = d.result; no_task = refl; state = d.state }
Step-IsDone {c} was_closed v d = close-IsDone c v d

Reach-IsDone : {c d : AppServerClient} → Reach c d → (v : Json) → IsDone c v → IsDone d v
Reach-IsDone here v d = d
Reach-IsDone (next path step) v d = Step-IsDone step v (Reach-IsDone path v d)

initialize-IsBefore :
    (c : AppServerClient) (e : Option RpcException) → IsBefore c → IsBefore (initialize c e).0
unfolding initialize initialize_alone unavailable create_task
initialize-IsBefore c e b = record {
  no_result = ground (arith, b.no_result, b.not_yet);
  not_yet = λ h. ground (arith, b.no_result, b.not_yet, h);
}

close-IsBefore : (c : AppServerClient) → IsBefore c → IsBefore (close c)
unfolding close
close-IsBefore c b = record {
  no_result = ground (arith, b.no_result);
  not_yet = λ h. ground (arith, b.not_yet, h);
}

handshake_done-IsDone : (c : AppServerClient) (v : Json) → IsDone (handshake_done c v) v
unfolding handshake_done
handshake_done-IsDone c v = record { result = refl; no_task = refl; state = inl refl }

Step-IsSound : {c d : AppServerClient} → Step c d → IsSound c → IsSound d
unfolding handshake_fails handshake_gone
Step-IsSound s (inr (v, d)) = inr (v, Step-IsDone s v d)
Step-IsSound {c} (initialize_called e) (inl b) = inl (initialize-IsBefore c e b)
Step-IsSound {c} (done v task) (inl b) = inr (v, handshake_done-IsDone c v)
Step-IsSound {c} (fails task) (inl b) =
    inl (record { no_result = b.no_result; not_yet = λ h. absurd (ground (arith, h)) })
Step-IsSound {c} gone (inl b) = inl (record { no_result = b.no_result; not_yet = b.not_yet })
Step-IsSound {c} was_closed (inl b) = inl (close-IsBefore c b)

Reach-IsSound : {c d : AppServerClient} → Reach c d → IsSound c → IsSound d
Reach-IsSound here s = s
Reach-IsSound (next path step) s = Step-IsSound step (Reach-IsSound path s)

new-IsSound : IsSound new_client
new-IsSound = inl (record { no_result = refl; not_yet = λ h. absurd (ground (arith, h)) })

result-IsDone :
    (c : AppServerClient) (v : Json) → IsSound c → c.initialize_result ≡ some v → IsDone c v
result-IsDone c v (inl b) h = absurd (ground (arith, h, b.no_result))
result-IsDone c v (inr (w, d)) h = subst (IsDone c) (some-injective w v (sym d.result ∙ h)) d

-- Once the handshake of a new client has ended with a result, every later state keeps that result,
-- is initialized or was closed since, and has no handshake task: another call of `initialize` raises
-- and starts nothing.
pub initialized_once :
    {b c : AppServerClient} (v : Json) (terminal_error : Option RpcException)
    → Reach new_client b
    → b.initialize_result ≡ some v
    → Reach b c
    → IsDone c v × ((x : ClientError) × (initialize c terminal_error ≡ (c, raises x)))
initialized_once {b} {c} v e before h after =
    let d = Reach-IsDone after v (result-IsDone b v (Reach-IsSound before new-IsSound) h) in
    (d, second_call c e v d)

-- The guard of a client's requests lets a method pass exactly if the handshake is done and the
-- method is neither of the two that the handshake sends, and so does the guard of its notifications.
pub guards_iff :
    (c : AppServerClient) (terminal_error : Option RpcException) (method : String)
    → ((guard_outbound_request_method c terminal_error method ≡ none)
        ↔ ((c.handshake_state ≡ initialized) × (method ≢ "initialize") × (method ≢ "initialized")))
      × ((guard_outbound_notification_method c terminal_error method ≡ none) ↔ (
          (c.handshake_state ≡ initialized) × (method ≢ "initialize") × (method ≢ "initialized")))
unfolding guard_outbound_request_method guard_outbound_notification_method require_initialized
    initialize_refused unavailable
guards_iff c e m = (
  ground (arith, eq_iff m "initialize", eq_iff m "initialized"),
  ground (arith, eq_iff m "initialize", eq_iff m "initialized"),
)
