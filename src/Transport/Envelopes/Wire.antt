-- ===== src/Transport/Envelopes/Wire.antt =====
-- src/codex_agent_sdk/transport/stdio.py: envelopes that one side writes are what the other reads.
use Prim.Native.String
use codex_python_sdk_unoffic.Common.{
  ℕ, zero, suc, ◌<◌, String, Bool, false, Option, none, some, List, [], ◌∷◌, ◌++◌, map, ◌≡◌, refl,
  sym, ap, ◌∙◌, subst, arith, length, All, append_assoc,
}
use codex_python_sdk_unoffic.Json.{Json}
use codex_python_sdk_unoffic.Rpc.Envelope.{
  JsonRpcEnvelope, typed, Coerced, ok, ◌>>=◌, to_wire_dict, serialize_jsonrpc_envelope,
  coerce_jsonrpc_envelope, parse_jsonrpc_envelope,
}
use codex_python_sdk_unoffic.Rpc.Envelope.RoundTrip.{IsCanonical, coerce-to_wire_dict}
use codex_python_sdk_unoffic.Transport.Frames.{
  Bytes, StdoutReader, FrameRead, frame, newline, cut, strip_cr, read_frame, after_read,
  read_frames, Reading,
}
use codex_python_sdk_unoffic.Transport.Frames.Lines.{lines, remaining, ending, closed, lines-cut}
use codex_python_sdk_unoffic.Transport.Frames.Reads.{IsReady, read_frames_lem}
use codex_python_sdk_unoffic.Transport.Envelopes.{
  WireCodec, EnvelopeRead, received, end_of_stream, encode_stdin_frame, decode_line, parse_line,
  as_envelope, read_stdout_envelope, after_envelope, read_envelopes,
}

-- the text of an envelope
abbrev pub text_of : WireCodec → JsonRpcEnvelope → String
text_of codec e = codec.dumps (Json.object (to_wire_dict e false))

-- What the two codecs do with one envelope: the text and its bytes are read back, the text takes
-- one line, and a newline after it is one byte.
pub record IsCarried (codec : WireCodec) (e : JsonRpcEnvelope) : Type 0 where
  pub canonical : IsCanonical e
  pub loads_back : codec.loads (text_of codec e) ≡ some (Json.object (to_wire_dict e false))
  pub decodes_back : codec.decode (codec.encode (text_of codec e)) ≡ some (text_of codec e)
  pub one_line : cut (codec.encode (text_of codec e)) ≡ none
  pub no_return : strip_cr (codec.encode (text_of codec e)) ≡ codec.encode (text_of codec e)
  pub newline_byte :
      codec.encode (String.◌++◌ (text_of codec e) "\n")
      ≡ codec.encode (text_of codec e) ++ newline ∷ []

-- the bytes that a peer sends for a list of envelopes
unfoldable pub write_all : WireCodec → List JsonRpcEnvelope → Coerced Bytes
write_all codec [] = ok []
write_all codec (e ∷ es) = do
  bytes ← encode_stdin_frame codec (typed e)
  rest ← write_all codec es
  ok (bytes ++ rest)

cut-newline : (s t : Bytes) → cut s ≡ none → cut (s ++ newline ∷ t) ≡ some (s, t)
unfolding cut
cut-newline [] t h = refl
cut-newline (c ∷ s) t h = ground (arith, h, cut-newline s t)

module _ (codec : WireCodec) where
  frame_bytes : JsonRpcEnvelope → Bytes
  frame_bytes e = codec.encode (text_of codec e)

  encode_lem :
      (e : JsonRpcEnvelope)
      → IsCarried codec e
      → encode_stdin_frame codec (typed e) ≡ ok (frame_bytes e ++ newline ∷ [])
  unfolding encode_stdin_frame serialize_jsonrpc_envelope coerce_jsonrpc_envelope frame_bytes
  encode_lem e v = ap ok v.newline_byte

  stream_of : List JsonRpcEnvelope → Bytes
  stream_of [] = []
  stream_of (e ∷ es) = frame_bytes e ++ newline ∷ stream_of es

  write_lem :
      (es : List JsonRpcEnvelope)
      → All (IsCarried codec) es
      → write_all codec es ≡ ok (stream_of es)
  unfolding write_all stream_of
  write_lem [] v = refl
  write_lem (e ∷ es) v =
      rw (encode_lem e v.0, write_lem es v.1)
        (ap ok (append_assoc (frame_bytes e) (newline ∷ []) (stream_of es)))

  lines-stream_of :
      (es : List JsonRpcEnvelope)
      → All (IsCarried codec) es
      → lines (stream_of es) ≡ (map frame_bytes es, [])
  unfolding stream_of lines frame_bytes
  lines-stream_of [] v = refl
  lines-stream_of (e ∷ es) v =
      lines-cut _ (frame_bytes e) (stream_of es)
        (cut-newline (frame_bytes e) (stream_of es) v.0.one_line)
      ∙ ap (λ (p : List Bytes × Bytes). (frame_bytes e ∷ p.0, p.1)) (lines-stream_of es v.1)

  module _ (exited : Bool) (tail : Option String) where
    received_lem :
        (e : JsonRpcEnvelope)
        → IsCarried codec e
        → as_envelope codec exited tail (frame (strip_cr (frame_bytes e))) ≡ received e
    unfolding as_envelope decode_line parse_line parse_jsonrpc_envelope frame_bytes
    received_lem e v =
        ground (
          arith,
          v.no_return,
          v.decodes_back,
          v.loads_back,
          coerce-to_wire_dict e false v.canonical,
        )

    Decodes : List Bytes → List JsonRpcEnvelope → Type 0
    Decodes [] [] = Unit
    Decodes (f ∷ fs) (e ∷ es) =
        (as_envelope codec exited tail (frame f) ≡ received e) × Decodes fs es
    Decodes _ _ = ⊥

    Agrees :
        List JsonRpcEnvelope × EnvelopeRead → List Bytes × FrameRead → List JsonRpcEnvelope → Type 0
    Agrees read (fs, last) es = Decodes fs es → read ≡ (es, as_envelope codec exited tail last)

    step :
        (n : ℕ) (x : Reading) (es : List JsonRpcEnvelope)
        → ((r : StdoutReader) (chunks : List Bytes) (es' : List JsonRpcEnvelope)
            → Agrees
                (read_envelopes codec exited tail n r chunks)
                (read_frames exited n r chunks)
                es')
        → Agrees
            (after_envelope codec exited tail
              (read_envelopes codec exited tail n)
              (as_envelope codec exited tail x.0, x.1, x.2))
            (after_read exited (read_frames exited n) x)
            es
    unfolding after_envelope after_read Agrees Decodes as_envelope decode_line parse_line
    step n (frame f, r, rest) [] ih d = absurd d
    step n (frame f, r, rest) (e ∷ es) ih d =
        ap (λ o. after_envelope codec exited tail (read_envelopes codec exited tail n) (o, r, rest))
          d.0
        ∙ ap (λ (p : List JsonRpcEnvelope × EnvelopeRead). (e ∷ p.0, p.1)) (ih r rest es d.1)
    step n (FrameRead.end_of_stream, r, rest) [] ih d = refl
    step n (_, r, rest) [] ih d = refl
    step n (_, r, rest) (e ∷ es) ih d = absurd d

    agrees :
        (n : ℕ) (r : StdoutReader) (chunks : List Bytes) (es : List JsonRpcEnvelope)
        → Agrees (read_envelopes codec exited tail n r chunks) (read_frames exited n r chunks) es
    unfolding read_envelopes read_frames read_stdout_envelope Agrees Decodes as_envelope decode_line
        parse_line
    agrees zero r chunks [] d = refl
    agrees zero r chunks (e ∷ es) d = absurd d
    agrees (suc n) r chunks es d =
        step n (read_frame exited r chunks) es (λ r' chunks' es'. agrees n r' chunks' es') d

    Decodes-stream :
        (es : List JsonRpcEnvelope)
        → All (IsCarried codec) es
        → Decodes (map strip_cr (map frame_bytes es)) es
    unfolding Decodes
    Decodes-stream [] v = tt
    Decodes-stream (e ∷ es) v = (received_lem e v.0, Decodes-stream es v.1)

length-map {ℓ κ} :
    {A : Type ℓ} {B : Type κ} (f : A → B) (xs : List A) → length (map f xs) ≡ length xs
length-map f [] = refl
length-map f (x ∷ xs) = ap suc (length-map f xs)

-- Envelopes that are written one after another, as frames on a pipe, are read back as the same
-- envelopes in the same order, however the pipe cuts the bytes into chunks, and then the end of the
-- stream is seen. The reader's limit leaves room for a chunk beside the longest line, and the codecs
-- carry each envelope on one line.
pub read_envelopes-write_all :
    (codec : WireCodec) (tail : Option String) (bound size n : ℕ) (r : StdoutReader)
    (cs : List Bytes) (es : List JsonRpcEnvelope)
    → All (IsCarried codec) es
    → write_all codec es ≡ ok (remaining r cs)
    → IsReady bound size r cs
    → length es < n
    → read_envelopes codec false tail n r (closed cs) ≡ (es, end_of_stream)
unfolding Agrees as_envelope decode_line parse_line
read_envelopes-write_all codec tail bound size n r cs es v w ready enough =
    let same : remaining r cs ≡ stream_of codec es = ground (arith, sym w ∙ write_lem codec es v) in
    let all = ap lines same ∙ lines-stream_of codec es v in
    let count : length (lines (remaining r cs)).0 < n = omega (
      arith,
      enough,
      ap (λ (p : List Bytes × Bytes). length p.0) all,
      length-map (frame_bytes codec) es,
    ) in
    let frames =
      read_frames_lem false bound size n r cs ready count
      ∙ ap (λ (p : List Bytes × Bytes). (map strip_cr p.0, ending false p.1)) all in
    subst (λ x. Agrees codec false tail (read_envelopes codec false tail n r (closed cs)) x es)
      frames (agrees codec false tail n r (closed cs) es) (Decodes-stream codec false tail es v)
