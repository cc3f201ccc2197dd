-- ===== src/Transport/Frames/Lines.antt =====
-- src/codex_agent_sdk/transport/stdio.py: the frames of a stream are its lines, however the stream
-- is cut into chunks.
use codex_python_sdk_unoffic.Common.{
  ℕ, ◌≤◌, ◌<◌, Bool, false, none, some, List, [], ◌∷◌, ◌++◌, ◌≡◌, refl, inl, inr, arith, nat_beq,
  length, if◌then◌else◌, Option-cases,
}
use codex_python_sdk_unoffic.Transport.Frames.{
  Bytes, StdoutReader, FrameRead, frame, end_of_stream, partial_frame, process_exit, newline, cut,
  strip_cr, at_eof, extend, read_frame,
}

-- a byte in front of what follows: of the first line, or of the rest if no line ends
abbrev add_byte : ℕ → List Bytes × Bytes → List Bytes × Bytes
add_byte c ([], tail) = ([], c ∷ tail)
add_byte c (l ∷ ls, tail) = ((c ∷ l) ∷ ls, tail)

-- the lines of a stream, and the bytes after its last newline
unfoldable pub lines : Bytes → List Bytes × Bytes
lines [] = ([], [])
lines (c ∷ s) =
    let rest = lines s in if nat_beq c newline then ([] ∷ rest.0, rest.1) else add_byte c rest

-- the bytes up to the next newline, or to the end
unfoldable pub head_line : Bytes → Bytes
head_line [] = []
head_line (c ∷ s) = let rest = head_line s in if nat_beq c newline then [] else c ∷ rest

-- No line, and not the rest after the last one, is longer than the bound.
abbrev pub LinesWithin : ℕ → Bytes → Type 0
LinesWithin bound [] = Unit
LinesWithin bound (c ∷ s) = (length (head_line (c ∷ s)) ≤ bound) × LinesWithin bound s

abbrev pub joined : List Bytes → Bytes
joined [] = []
joined (c ∷ cs) = c ++ joined cs

-- The read size bounds a chunk, and no chunk before the end is empty.
abbrev pub IsChunk : ℕ → Bytes → Type 0
IsChunk size c = (0 < length c) × (length c ≤ size)

pub lines_uncut : (s : Bytes) → cut s ≡ none → lines s ≡ ([], s)
unfolding cut lines
lines_uncut [] h = refl
lines_uncut (c ∷ s) h = ground (arith, h, lines_uncut s)

pub lines-cut :
    (s f rest : Bytes) → cut s ≡ some (f, rest) → lines s ≡ (f ∷ (lines rest).0, (lines rest).1)
unfolding cut lines
lines-cut [] f rest h = cc
lines-cut (c ∷ s) f rest h = elim (Option-cases (cut s)) [
  | inl e ↦ ground (arith, h, e)
  | inr (p, e) ↦ ground (arith, h, e, lines-cut s p.0 p.1 e)
]

pub cut-append_some :
    (s t f rest : Bytes) → cut s ≡ some (f, rest) → cut (s ++ t) ≡ some (f, rest ++ t)
unfolding cut
cut-append_some [] t f rest h = cc
cut-append_some (c ∷ s) t f rest h = elim (Option-cases (cut s)) [
  | inl e ↦ ground (arith, h, e)
  | inr (p, e) ↦ ground (arith, h, e, cut-append_some s t p.0 p.1 e)
]

-- A cut takes out the newline and nothing else.
pub cut_parts : (s f rest : Bytes) → cut s ≡ some (f, rest) → s ≡ f ++ newline ∷ rest
unfolding cut
cut_parts [] f rest h = cc
cut_parts (c ∷ s) f rest h = elim (Option-cases (cut s)) [
  | inl e ↦ ground (arith, h, e)
  | inr (p, e) ↦ ground (arith, h, e, cut_parts s p.0 p.1 e)
]

pub head_line-append : (s t : Bytes) → cut s ≡ none → head_line (s ++ t) ≡ s ++ head_line t
unfolding cut head_line
head_line-append [] t h = refl
head_line-append (c ∷ s) t h = ground (arith, h, head_line-append s t)

pub LinesWithin-append :
    (bound : ℕ) (s t : Bytes) → LinesWithin bound (s ++ t) → LinesWithin bound t
LinesWithin-append bound [] t h = h
LinesWithin-append bound (c ∷ s) t h = LinesWithin-append bound s t h.1

pub LinesWithin-head : (bound : ℕ) (s : Bytes) → LinesWithin bound s → length (head_line s) ≤ bound
unfolding head_line
LinesWithin-head bound [] h = omega arith
LinesWithin-head bound (c ∷ s) h = h.0

-- what is left of a stream from a reader's point of view
abbrev pub remaining : StdoutReader → List Bytes → Bytes
remaining r chunks = r.stdout_buffer ++ joined chunks

-- how the reads end when this much is left after the last newline
abbrev pub ending : Bool → Bytes → FrameRead
ending exited [] = if exited then process_exit else end_of_stream
ending exited (c ∷ s) = partial_frame

-- `b""` after the last chunk
abbrev pub closed : List Bytes → List Bytes
closed chunks = chunks ++ [] ∷ []

module _ (exited : Bool) where
  pub buffered :
      (r : StdoutReader) (chunks : List Bytes) (f rest : Bytes)
      → cut r.stdout_buffer ≡ some (f, rest)
      → read_frame exited r chunks ≡ (frame (strip_cr f), record r { stdout_buffer = rest }, chunks)
  unfolding read_frame
  buffered r [] f rest h = rw (h, read_frame) refl
  buffered r (c ∷ cs) f rest h = rw (h, read_frame) refl

  -- a chunk that keeps the buffer within the limit is added
  pub grows :
      (r : StdoutReader) (c : Bytes) (chunks : List Bytes)
      → cut r.stdout_buffer ≡ none
      → r.stdout_eof ≡ false
      → 0 < length c
      → length (r.stdout_buffer ++ c) ≤ r.stdout_max_frame_bytes
      → read_frame exited r (c ∷ chunks) ≡ read_frame exited (extend r c) chunks
  unfolding read_frame
  grows r [] chunks h e pos within = absurd (omega arith)
  grows r (b ∷ more) chunks h e pos within = ground (arith, h, e)

  pub ends :
      (r : StdoutReader)
      → cut r.stdout_buffer ≡ none
      → r.stdout_eof ≡ false
      → (read_frame exited r ([] ∷ [])).0 ≡ ending exited r.stdout_buffer
  unfolding read_frame at_eof
  ends r h e = ground (arith, h, e)
