-- ===== src/Tests/Transport.antt =====
-- The frames and envelopes of src/codex_agent_sdk/transport/stdio.py at concrete bytes.
use codex_python_sdk_unoffic.Common.{
  ℕ, negsuc, pos, true, false, none, some, List, [], ◌∷◌, ◌≡◌, refl, arith,
}
use codex_python_sdk_unoffic.Common.Strings.{codes}
use codex_python_sdk_unoffic.Json.{Json}
use codex_python_sdk_unoffic.Rpc.Envelope.{
  JsonRpcEnvelope, to_wire_dict, serialize_jsonrpc_envelope, coerce_jsonrpc_envelope,
}
use codex_python_sdk_unoffic.Transport.Frames.{
  Bytes, StdoutReader, partial_frame, read_frames, cut, strip_cr,
}
use codex_python_sdk_unoffic.Transport.Frames.Lines.{closed, lines, head_line}
use codex_python_sdk_unoffic.Transport.Frames.Reads.{IsReady, read_frames_lem}
use codex_python_sdk_unoffic.Transport.Envelopes
use codex_python_sdk_unoffic.Transport.Envelopes.{WireCodec, encode_stdin_frame, read_envelopes}
use codex_python_sdk_unoffic.Transport.Envelopes.Wire.{
  IsCarried, write_all, read_envelopes-write_all,
}
use codex_python_sdk_unoffic.Transport.Process.{
  Process, ProcessState, Await, hangs, Waits, still_waits, close, close_process,
}

abbrev reader : ℕ → StdoutReader
reader limit = record { stdout_buffer = []; stdout_eof = false; stdout_max_frame_bytes = limit }

-- "a\r\nb" in three chunks
abbrev chunks : List Bytes
chunks = (97 ∷ []) ∷ (13 ∷ 10 ∷ []) ∷ (98 ∷ []) ∷ []

chunks-IsReady : IsReady 2 2 (reader 4) chunks
unfolding head_line
chunks-IsReady = record {
  room = omega arith;
  before_end = refl;
  sized =
      ((omega arith, omega arith), ((omega arith, omega arith), ((omega arith, omega arith), tt)));
  fits = (omega arith, (omega arith, (omega arith, (omega arith, tt))));
}

read_frames_lem_example :
    read_frames false 2 (reader 4) (closed chunks) ≡ ((97 ∷ []) ∷ [], partial_frame)
unfolding lines strip_cr
read_frames_lem_example = read_frames_lem false 2 2 2 (reader 4) chunks chunks-IsReady (omega arith)

abbrev ping : JsonRpcEnvelope
ping =
    JsonRpcEnvelope.notification
      (record { method = "ping"; params = Json.null; params_present = false })

-- a codec for one envelope, over ASCII
abbrev codec : WireCodec
codec = record {
  loads = λ line. some (Json.object (to_wire_dict ping false));
  dumps = λ v. "{}";
  encode = codes;
  decode = λ bytes. some "{}";
}

ping-IsCarried : IsCarried codec ping
unfolding cut strip_cr
ping-IsCarried = record {
  canonical = refl;
  loads_back = refl;
  decodes_back = refl;
  one_line = refl;
  no_return = refl;
  newline_byte = refl;
}

abbrev wire : List Bytes
wire = (123 ∷ 125 ∷ []) ∷ (10 ∷ 123 ∷ []) ∷ (125 ∷ 10 ∷ []) ∷ []

wire-IsReady : IsReady 2 2 (reader 4) wire
unfolding head_line
wire-IsReady = record {
  room = omega arith;
  before_end = refl;
  sized =
      ((omega arith, omega arith), ((omega arith, omega arith), ((omega arith, omega arith), tt)));
  fits =
      (omega arith, (omega arith, (omega arith, (omega arith, (omega arith, (omega arith, tt))))));
}

read_envelopes-write_all_example :
    read_envelopes codec false none 3 (reader 4) (closed wire)
    ≡ (ping ∷ ping ∷ [], Envelopes.end_of_stream)
unfolding write_all encode_stdin_frame serialize_jsonrpc_envelope coerce_jsonrpc_envelope
read_envelopes-write_all_example =
    read_envelopes-write_all codec none 2 2 3 (reader 4) wire (ping ∷ ping ∷ [])
      (ping-IsCarried, (ping-IsCarried, tt)) refl wire-IsReady (omega arith)

abbrev child : Process
child = record { returncode = none; stdin_closing = false }

abbrev with_child : ProcessState
with_child = record {
  process = some child;
  close_requested = false;
  last_returncode = none;
  process_exit_error = none;
}

-- it ends when it is terminated
abbrev slow : Waits
slow = record {
  stdin = Await.ends;
  first = none;
  second = some (negsuc 14);
  third = none;
  stderr = Await.ends;
}

-- stdin's end never comes
abbrev stuck : Waits
stuck = record {
  stdin = hangs;
  first = some (pos 0);
  second = none;
  third = none;
  stderr = Await.ends;
}

stays : close with_child stuck ≡ (
  record with_child {
    process = some (record { returncode = none; stdin_closing = true });
    close_requested = true;
  },
  [],
  still_waits,
)
unfolding close close_process
stays = refl
