-- ===== src/Transport/Envelopes.antt =====
-- src/codex_agent_sdk/transport/stdio.py: envelopes on the pipes, one frame for each.
--
-- JSON and UTF-8 are the standard library's codecs and enter as `WireCodec`.
pub mod Wire
use Prim.Native.String
use codex_python_sdk_unoffic.Common.{
  ℕ, zero, suc, String, Bool, true, false, Option, none, some, List, [], ◌∷◌, ◌++◌,
}
use codex_python_sdk_unoffic.Json.{Json}
use codex_python_sdk_unoffic.Rpc.Envelope.{
  JsonRpcEnvelope, JsonRpcEnvelopeLike, typed, Coerced, ok, ◌>>=◌, parsed, decode_error,
  MessageDecodeError, parse_jsonrpc_envelope, serialize_jsonrpc_envelope,
}
use codex_python_sdk_unoffic.Transport.Frames.{
  Bytes, StdoutReader, FrameRead, frame, read_frame, Reading, preview,
}

pub record WireCodec : Type 0 where
  pub loads : String → Option Json
  pub dumps : Json → String
  pub encode : String → Bytes
  pub decode : Bytes → Option String

pub data ReadFailure : Type 0 where
  partial_frame process_exit : ReadFailure
  frame_too_long undecodable : Bytes → ReadFailure
  bad_message : MessageDecodeError → ReadFailure

pub data LineRead : Type 0 where
  line : String → LineRead
  end_of_lines : LineRead
  line_failed : ReadFailure → LineRead
  line_waits : LineRead

pub data EnvelopeRead : Type 0 where
  received : JsonRpcEnvelope → EnvelopeRead
  end_of_stream : EnvelopeRead
  read_failed : ReadFailure → EnvelopeRead
  waits : EnvelopeRead

module _ (codec : WireCodec) where
  -- `_encode_stdin_frame`
  unfoldable pub encode_stdin_frame : JsonRpcEnvelopeLike → Coerced Bytes
  encode_stdin_frame envelope = do
    text ← serialize_jsonrpc_envelope codec.dumps envelope false
    ok (codec.encode (String.◌++◌ text "\n"))

  -- the rest of `read_stdout_line`, from the frame on
  unfoldable pub decode_line : FrameRead → LineRead
  decode_line (frame f) = elim (codec.decode f) [
    | none ↦ line_failed (undecodable (preview f))
    | some s ↦ line s
  ]
  decode_line FrameRead.end_of_stream = end_of_lines
  decode_line FrameRead.partial_frame = line_failed partial_frame
  decode_line FrameRead.process_exit = line_failed process_exit
  decode_line (FrameRead.frame_too_long p) = line_failed (frame_too_long p)
  decode_line FrameRead.waits = line_waits

  -- the rest of `read_stdout_envelope`, from the line on
  unfoldable pub parse_line : Option String → LineRead → EnvelopeRead
  parse_line stderr_tail (line s) = elim (parse_jsonrpc_envelope codec.loads s stderr_tail) [
    | parsed e ↦ received e
    | decode_error e ↦ read_failed (bad_message e)
  ]
  parse_line stderr_tail end_of_lines = end_of_stream
  parse_line stderr_tail (line_failed e) = read_failed e
  parse_line stderr_tail line_waits = waits

module _ (codec : WireCodec) (exited : Bool) (stderr_tail : Option String) where
  unfoldable pub as_envelope : FrameRead → EnvelopeRead
  unfolding decode_line parse_line
  as_envelope o = parse_line codec stderr_tail (decode_line codec o)

  unfoldable pub read_stdout_envelope :
      StdoutReader → List Bytes → EnvelopeRead × StdoutReader × List Bytes
  unfolding as_envelope
  read_stdout_envelope r chunks =
      let (o, r', rest) = read_frame exited r chunks in (as_envelope o, r', rest)

  unfoldable pub after_envelope :
      (StdoutReader → List Bytes → List JsonRpcEnvelope × EnvelopeRead)
      → EnvelopeRead × StdoutReader × List Bytes
      → List JsonRpcEnvelope × EnvelopeRead
  after_envelope go (o, r, rest) = elim o [
    | received e ↦ let (es, last) = go r rest in (e ∷ es, last)
    | other ↦ ([], other)
  ]

  -- The dispatcher's way to read: until a read gives no envelope.
  unfoldable pub read_envelopes :
      ℕ → StdoutReader → List Bytes → List JsonRpcEnvelope × EnvelopeRead
  unfolding after_envelope read_stdout_envelope
  read_envelopes zero r chunks = ([], waits)
  read_envelopes (suc n) r chunks =
      after_envelope (read_envelopes n) (read_stdout_envelope r chunks)
