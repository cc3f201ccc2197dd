-- ===== src/Transport/Process.antt =====
-- src/codex_agent_sdk/transport/stdio.py: how `StdioTransport` shuts its process down, and when it
-- refuses to write.
--
-- The operating system enters as what each wait for the process gives: its exit code, or none when
-- the timeout strikes. The waits for the end of stdin and for the stderr task have no timeout: each
-- ends, fails or never comes to an end. Signals are listed in the order in which they are sent. A
-- process without stdin counts as one whose stdin is closing.
pub mod Shutdown
use codex_python_sdk_unoffic.Common.{
  ℤ, pos, Bool, true, false, Option, none, some, List, [], ◌∷◌, if◌then◌else◌, or_else, int_beq,
}

pub record Process : Type 0 where
  pub returncode : Option ℤ
  pub stdin_closing : Bool

-- what `StdioTransport` keeps of its process
pub record ProcessState : Type 0 where
  pub process : Option Process
  pub close_requested : Bool
  pub last_returncode : Option ℤ
  pub process_exit_error : Option ℤ

pub data Signal : Type 0 where
  terminate kill : Signal

-- how `close` ends, if it does
pub data Closed : Type 0 where
  closed : Closed
  shutdown_timeout : Closed
  failed : Closed
  still_waits : Closed

-- a wait without a timeout
pub data Await : Type 0 where
  ends fails hangs : Await

-- the outcomes of `stdin.wait_closed()`, of the three waits for the process, and of the stderr task
pub record Waits : Type 0 where
  pub stdin : Await
  pub first : Option ℤ
  pub second : Option ℤ
  pub third : Option ℤ
  pub stderr : Await

-- `_close_stdin`
abbrev pub close_stdin : Process → Process
close_stdin p = record p { stdin_closing = true }

-- `_wait_for_process_exit`: an exit code that is known wins
abbrev pub wait_for_process_exit : Process → Option ℤ → Process
wait_for_process_exit p waited = record p { returncode = or_else p.returncode waited }

-- `_build_process_exit_error`: the first error is kept
abbrev pub build_process_exit_error : ProcessState → ℤ → ProcessState
build_process_exit_error s code = record s {
  process_exit_error = or_else s.process_exit_error (some code);
}

abbrev pub record_exit : ProcessState → ℤ → Bool → ProcessState
record_exit s code escalated =
    if escalated then s else if int_beq code (pos 0) then s else build_process_exit_error s code

-- the `finally` of `_close_impl`
abbrev pub finally : ProcessState → Process → ProcessState
finally s p = elim p.returncode [
  | some code ↦ record s { process = none; last_returncode = some code }
  | none ↦ record s { process = some p }
]

abbrev pub Shutdown : Type 0
Shutdown = ProcessState × List Signal × Closed

-- the rest of `_close_impl` after the process is known to have exited: it waits for stderr
unfoldable pub exited : ProcessState → Process → ℤ → Await → List Signal → Bool → Shutdown
exited s p code Await.ends signals escalated =
    (record_exit (finally s p) code escalated, signals, closed)
exited s p code fails signals escalated = (finally s p, signals, failed)
exited s p code hangs signals escalated =
    (record s { process = some p; last_returncode = some code }, signals, still_waits)

-- after the kill
unfoldable pub after_kill : ProcessState → Process → Waits → Shutdown
unfolding exited
after_kill s p waits = elim p.returncode [
  | some code ↦ exited s p code waits.stderr (terminate ∷ kill ∷ []) true
  | none ↦ (finally s p, terminate ∷ kill ∷ [], shutdown_timeout)
]

-- after the first wait
unfoldable pub after_terminate : ProcessState → Process → Waits → Shutdown
unfolding after_kill exited
after_terminate s p waits = elim p.returncode [
  | some code ↦ exited s p code waits.stderr (terminate ∷ []) true
  | none ↦ after_kill s (wait_for_process_exit p waits.third) waits
]

-- after `_close_stdin`
unfoldable pub after_stdin : ProcessState → Process → Waits → Shutdown
unfolding after_terminate exited
after_stdin s p waits =
    let p' = wait_for_process_exit p waits.first in
    elim p'.returncode [
      | some code ↦ exited s p' code waits.stderr [] false
      | none ↦ after_terminate s (wait_for_process_exit p' waits.second) waits
    ]

-- The wait of `_close_stdin`: there is none if stdin was closing already.
abbrev pub stdin_await : Process → Waits → Await
stdin_await p waits = if p.stdin_closing then Await.ends else waits.stdin

unfoldable pub close_process : ProcessState → Process → Waits → Shutdown
unfolding after_stdin
close_process s p waits = elim (stdin_await p waits) [
  | Await.ends ↦ after_stdin s (close_stdin p) waits
  | fails ↦ (finally s (close_stdin p), [], failed)
  | hangs ↦ (record s { process = some (close_stdin p) }, [], still_waits)
]

-- `close`, for a caller that finds no close task
unfoldable pub close : ProcessState → Waits → Shutdown
unfolding close_process
close s waits = elim s.process [
  | none ↦ (s, [], closed)
  | some p ↦ close_process (record s { close_requested = true }) p waits
]

pub data WriteRefusal : Type 0 where
  after_close after_exit no_stdin : WriteRefusal
  process_exit : ℤ → WriteRefusal

-- `_require_stdin_for_write_locked`, for a process that has exited: what it raises is the error
-- that is kept
abbrev pub exit_refusal : ProcessState → ℤ → ProcessState × Option WriteRefusal
exit_refusal s code = if int_beq code (pos 0) then (s, some after_exit) else (
  build_process_exit_error s code,
  some (process_exit (elim s.process_exit_error [ none ↦ code | some first ↦ first ])),
)

-- what it raises, if it does
unfoldable pub require_stdin_for_write : ProcessState → ProcessState × Option WriteRefusal
require_stdin_for_write s = elim s.process [
  | none ↦ (s, some after_close)
  | some p ↦ elim s.close_requested [
    | true ↦ (s, some after_close)
    | false ↦ elim p.returncode [
      | some code ↦ exit_refusal (record s { last_returncode = some code }) code
      | none ↦ if p.stdin_closing then (s, some no_stdin) else (s, none)
    ]
  ]
]
