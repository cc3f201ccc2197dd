-- ===== src/Retry/Attempts.antt =====
-- src/codex_agent_sdk/retry.py: which attempts are made, which sleeps are begun, and what comes out.
use codex_python_sdk_unoffic.Common.{
  ℕ, suc, ◌+◌, ◌-◌, ◌≤◌, String, Bool, true, false, Option, none, some, List, [], ◌∷◌, ◌++◌, ◌≡◌,
}
use codex_python_sdk_unoffic.Rpc.Requests.{RpcException, Outcome, returned, raised}
use codex_python_sdk_unoffic.Retry.{is_overload, budget_error, Event, attempted, sleeps, Attempts}

-- whether an attempt asks for another
abbrev pub overloads {ℓ} : {A : Type ℓ} → Outcome A → Bool
overloads (returned v) = false
overloads (raised exc) = is_overload exc

-- what the caller gets when the last attempt was an overload
abbrev pub spent {ℓ} : {A : Type ℓ} → (ℕ → String) → ℕ → Outcome A → Outcome A
spent str max_attempts (returned v) = returned v
spent str max_attempts (raised exc) = raised (budget_error str max_attempts exc)

module _ {ℓ} {A D : Type ℓ} (delay : ℕ → Outcome D) (sleep : ℕ → D → Option RpcException)
    (operation : ℕ → Outcome A) where
  -- rounds from an attempt on, in each of which the attempt is an overload and the sleep after it,
  -- for the delay of that attempt, comes to its end
  pub data Rounds : ℕ → ℕ → List (Event D) → Type ℓ where
    no_round : {attempt : ℕ} → Rounds attempt 0 []
    round :
        {attempt n : ℕ} {events : List (Event D)} (d : D)
        → overloads (operation attempt) ≡ true
        → delay attempt ≡ returned d
        → sleep attempt d ≡ none
        → Rounds (attempt + 1) n events
        → Rounds attempt (suc n) (attempted attempt ∷ sleeps d ∷ events)

  module _ (str : ℕ → String) (max_attempts : ℕ) where
    -- the last attempt, with some number of attempts left: it is no overload, or none is left, or
    -- the sleep after it fails
    pub data Ending (attempt : ℕ) : ℕ → Outcome A → List (Event D) → Type ℓ where
      settled :
          {left : ℕ}
          → overloads (operation attempt) ≡ false
          → Ending attempt left (operation attempt) (attempted attempt ∷ [])
      exhausted :
          overloads (operation attempt) ≡ true
          → Ending attempt 0 (spent str max_attempts (operation attempt)) (attempted attempt ∷ [])
      no_delay :
          {left : ℕ} (exc : RpcException)
          → overloads (operation attempt) ≡ true
          → delay attempt ≡ raised exc
          → Ending attempt (suc left) (raised exc) (attempted attempt ∷ [])
      sleep_failed :
          {left : ℕ} (d : D) (exc : RpcException)
          → overloads (operation attempt) ≡ true
          → delay attempt ≡ returned d
          → sleep attempt d ≡ some exc
          → Ending attempt (suc left) (raised exc) (attempted attempt ∷ sleeps d ∷ [])

    -- rounds that come to their end, and then the last attempt
    pub record Tried (attempt left : ℕ) (o : Outcome A) (events : List (Event D)) : Type ℓ where
      pub rounds : ℕ
      pub before : List (Event D)
      pub last : List (Event D)
      pub enough : rounds ≤ left
      pub went : Rounds attempt rounds before
      pub ending : Ending (attempt + rounds) (left - rounds) o last
      pub all : events ≡ before ++ last

    abbrev IsTried : ℕ → ℕ → Attempts A D → Type ℓ
    IsTried attempt left x = Tried attempt left x.0 x.1
