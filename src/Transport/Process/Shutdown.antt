-- ===== src/Transport/Process/Shutdown.antt =====
-- src/codex_agent_sdk/transport/stdio.py: how `close` ends, whatever the process does.
use codex_python_sdk_unoffic.Common.{
  ℤ, true, Option, none, some, List, [], ◌∷◌, ◌≡◌, or_else, pos, int_beq, if◌then◌else◌,
}
use codex_python_sdk_unoffic.Transport.Process.{
  Process, ProcessState, Signal, terminate, kill, Closed, closed, shutdown_timeout, failed,
  still_waits, Await, fails, hangs, Waits, stdin_await, require_stdin_for_write, after_close,
}

-- the exit code that is known at the end of the waits for the process
abbrev pub exit_code : Process → Waits → Option ℤ
exit_code p w = or_else p.returncode (or_else w.first (or_else w.second w.third))

abbrev pub signals_for : Process → Waits → List Signal
signals_for p w = elim (or_else p.returncode w.first) [
  | some _ ↦ []
  | none ↦ elim w.second [ some _ ↦ terminate ∷ [] | none ↦ terminate ∷ kill ∷ [] ]
]

-- what the wait for stderr makes of a close
abbrev pub after_exit : Await → Closed
after_exit Await.ends = closed
after_exit fails = failed
after_exit hangs = still_waits

abbrev pub outcome_of : Option ℤ → Await → Closed
outcome_of none stderr = shutdown_timeout
outcome_of (some code) stderr = after_exit stderr

-- a process that is kept, with its stdin closed
abbrev pub kept : Option ℤ → Option Process
kept code = some (record { returncode = code; stdin_closing = true })

-- a process that is kept exactly if it outlives the close
abbrev pub left_over : Option ℤ → Option Process
left_over none = kept none
left_over (some code) = none

-- the process that is kept while the close waits for stderr, and after it
abbrev pub kept_after : Option ℤ → Await → Option Process
kept_after (some code) hangs = kept (some code)
kept_after code stderr = left_over code

-- the exit error that a close finds: a code that is not zero, of a process that needed no signal
abbrev pub new_error : Process → Waits → Option ℤ
new_error p w = elim (or_else p.returncode w.first) [
  | none ↦ none
  | some code ↦ elim w.stderr [
    | Await.ends ↦ if int_beq code (pos 0) then none else some code
    | _ ↦ none
  ]
]

-- what a close does that waits for the end of stdin: the case of each way in which that can go
abbrev by_stdin {ℓ} : {A : Type ℓ} → Process → Waits → A → A → A → A
by_stdin p w ended failing hanging = elim (stdin_await p w) [
  | Await.ends ↦ ended
  | fails ↦ failing
  | hangs ↦ hanging
]

-- what is known of a close, and of the transport after it or while it still waits
pub record HasEnded (before : ProcessState) (p : Process) (w : Waits) (s : ProcessState)
    (sent : List Signal) (outcome : Closed) : Type 0 where
  pub signals : sent ≡ by_stdin p w (signals_for p w) [] []
  pub ending : outcome ≡ by_stdin p w (outcome_of (exit_code p w) w.stderr) failed still_waits
  pub process :
      s.process
      ≡ by_stdin p w
          (kept_after (exit_code p w) w.stderr)
          (left_over p.returncode)
          (kept p.returncode)
  pub code :
      s.last_returncode
      ≡ by_stdin p w
          (or_else (exit_code p w) before.last_returncode)
          (or_else p.returncode before.last_returncode)
          before.last_returncode
  pub exit_error :
      s.process_exit_error
      ≡ or_else before.process_exit_error (by_stdin p w (new_error p w) none none)
  pub refused : require_stdin_for_write s ≡ (s, some after_close)
