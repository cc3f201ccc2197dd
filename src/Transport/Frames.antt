-- ===== src/Transport/Frames.antt =====
-- src/codex_agent_sdk/transport/stdio.py: how `StdioTransport` cuts stdout into frames and reads
-- envelopes from them.
--
-- Bytes are numbers. What `stdout.read` yields enters as a list of chunks, an empty one being the
-- end of the stream; where the list is used up, the reader waits.
pub mod Lines
pub mod Reads
use codex_python_sdk_unoffic.Common.{
  ℕ, zero, suc, String, Bool, true, false, Option, none, some, List, [], ◌∷◌, ◌++◌, nat_beq, ltb,
  length, if◌then◌else◌, take,
}
use codex_python_sdk_unoffic.Json.{Json}
use codex_python_sdk_unoffic.Rpc.Envelope.{
  JsonRpcEnvelope, Parsed, parsed, decode_error, MessageDecodeError, DecodeFailure,
  parse_jsonrpc_envelope,
}

abbrev pub Bytes : Type 0
Bytes = List ℕ

pub record StdoutReader : Type 0 where
  pub stdout_buffer : Bytes
  pub stdout_eof : Bool
  pub stdout_max_frame_bytes : ℕ

-- `frame_too_long` is the `MessageDecodeError` with its preview; `partial_frame` the
-- `TransportClosedError`; `process_exit` an exit with a code that is not 0
pub data FrameRead : Type 0 where
  frame : Bytes → FrameRead
  end_of_stream partial_frame : FrameRead
  process_exit : FrameRead
  frame_too_long : Bytes → FrameRead
  waits : FrameRead

abbrev pub newline : ℕ
newline = 10

-- `find(b"\n")`: the bytes before the first newline, and those after it
unfoldable pub cut : Bytes → Option (Bytes × Bytes)
cut [] = none
cut (c ∷ s) =
    if nat_beq c newline
    then some ([], s)
    else elim (cut s) [ none ↦ none | some p ↦ some (c ∷ p.0, p.1) ]

-- `if frame.endswith(b"\r"): frame = frame[:-1]`
unfoldable pub strip_cr : Bytes → Bytes
strip_cr [] = []
strip_cr (c ∷ []) = if nat_beq c 13 then [] else c ∷ []
strip_cr (c ∷ d ∷ s) = c ∷ strip_cr (d ∷ s)

-- `frame[:160]`
abbrev pub preview : Bytes → Bytes
preview = take 160

-- The end of the stream, with no newline in the buffer; `exited` says whether the process ended
-- with an error.
unfoldable pub at_eof : Bool → StdoutReader → FrameRead
at_eof exited r = elim r.stdout_buffer [
  | [] ↦ if exited then process_exit else end_of_stream
  | _ ∷ _ ↦ partial_frame
]

abbrev pub Reading : Type 0
Reading = FrameRead × StdoutReader × List Bytes

abbrev pub extend : StdoutReader → Bytes → StdoutReader
extend r chunk = record r { stdout_buffer = r.stdout_buffer ++ chunk }

module _ (exited : Bool) where
  -- `_read_stdout_frame_locked`
  unfoldable pub read_frame : StdoutReader → List Bytes → Reading
  unfolding cut strip_cr at_eof
  read_frame r [] = elim (cut r.stdout_buffer) [
    | some p ↦ (frame (strip_cr p.0), record r { stdout_buffer = p.1 }, [])
    | none ↦ (if r.stdout_eof then at_eof exited r else waits, r, [])
  ]
  read_frame r (chunk ∷ chunks) = elim (cut r.stdout_buffer) [
    | some p ↦ (frame (strip_cr p.0), record r { stdout_buffer = p.1 }, chunk ∷ chunks)
    | none ↦ elim r.stdout_eof [
      | true ↦ (at_eof exited r, r, chunk ∷ chunks)
      | false ↦ elim chunk [
        | [] ↦ read_frame (record r { stdout_eof = true }) chunks
        | c ∷ more ↦ elim (ltb r.stdout_max_frame_bytes (length (r.stdout_buffer ++ c ∷ more))) [
          | true ↦
              (frame_too_long (preview (r.stdout_buffer ++ c ∷ more)), extend r (c ∷ more), chunks)
          | false ↦ read_frame (extend r (c ∷ more)) chunks
        ]
      ]
    ]
  ]

  -- what a caller does with one read, and how it goes on after a frame
  unfoldable pub after_read :
      (StdoutReader → List Bytes → List Bytes × FrameRead) → Reading → List Bytes × FrameRead
  after_read go (o, r, rest) = elim o [
    | frame f ↦ let (fs, last) = go r rest in (f ∷ fs, last)
    | other ↦ ([], other)
  ]

  -- A caller that reads frames until a read gives none: the frames, and what ended them.
  unfoldable pub read_frames : ℕ → StdoutReader → List Bytes → List Bytes × FrameRead
  unfolding read_frame after_read
  read_frames zero r chunks = ([], waits)
  read_frames (suc n) r chunks = after_read (read_frames n) (read_frame r chunks)
