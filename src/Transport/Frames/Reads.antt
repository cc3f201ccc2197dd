-- ===== src/Transport/Frames/Reads.antt =====
-- src/codex_agent_sdk/transport/stdio.py: reading a stream to its end.
use codex_python_sdk_unoffic.Common.{
  ℕ, zero, suc, ◌+◌, ◌≤◌, ◌<◌, Bool, false, none, some, some-injective, List, [], ◌∷◌, ◌++◌, map,
  ◌≡◌, sym, ap, subst, ◌∙◌, inl, inr, arith, length, length-append, All, append_assoc, append-nil,
  Option-cases,
}
use codex_python_sdk_unoffic.Transport.Frames.{
  Bytes, StdoutReader, FrameRead, frame, cut, strip_cr, extend, read_frame, after_read, read_frames,
  Reading, newline,
}
use codex_python_sdk_unoffic.Transport.Frames.Lines.{
  lines, cut_parts, head_line, LinesWithin, joined, IsChunk, remaining, ending, closed, lines_uncut,
  lines-cut, cut-append_some, head_line-append, LinesWithin-append, LinesWithin-head, buffered,
  grows, ends,
}

-- A reader before the end of its stream, whose limit leaves room for a chunk beside the longest line.
pub record IsReady (bound size : ℕ) (r : StdoutReader) (chunks : List Bytes) : Type 0 where
  pub room : bound + size ≤ r.stdout_max_frame_bytes
  pub before_end : r.stdout_eof ≡ false
  pub sized : All (IsChunk size) chunks
  pub fits : LinesWithin bound (remaining r chunks)

module _ (exited : Bool) (bound size : ℕ) where
  extend-IsReady :
      (r : StdoutReader) (c : Bytes) (cs : List Bytes)
      → IsReady bound size r (c ∷ cs)
      → IsReady bound size (extend r c) cs
  extend-IsReady r c cs v = record {
    room = v.room;
    before_end = v.before_end;
    sized = v.sized.1;
    fits = subst (LinesWithin bound) (sym (append_assoc r.stdout_buffer c (joined cs))) v.fits;
  }

  grow_ready :
      (r : StdoutReader) (c : Bytes) (cs : List Bytes)
      → IsReady bound size r (c ∷ cs)
      → cut r.stdout_buffer ≡ none
      → read_frame exited r (c ∷ closed cs) ≡ read_frame exited (extend r c) (closed cs)
  grow_ready r c cs v h = grows exited r c (closed cs) h v.before_end v.sized.0.0 (
      omega (
        arith,
        v.room,
        v.sized.0.1,
        length-append r.stdout_buffer c,
        length-append r.stdout_buffer (head_line (c ++ joined cs)),
        ap length (head_line-append r.stdout_buffer (c ++ joined cs) h),
        LinesWithin-head bound (remaining r (c ∷ cs)) v.fits,
      ))

  -- what the reader is left with after a frame
  IsNext : StdoutReader → List Bytes → Bytes → Bytes → StdoutReader → List Bytes → Type 0
  IsNext r cs f rest r' cs' =
      (read_frame exited r (closed cs) ≡ (frame (strip_cr f), r', closed cs'))
      × (remaining r' cs' ≡ rest)
      × IsReady bound size r' cs'

  buffered-IsNext :
      (r : StdoutReader) (cs : List Bytes) (f rest g q : Bytes)
      → IsReady bound size r cs
      → cut r.stdout_buffer ≡ some (g, q)
      → cut (remaining r cs) ≡ some (f, rest)
      → (r' : StdoutReader) × (cs' : List Bytes) × IsNext r cs f rest r' cs'
  unfolding IsNext
  buffered-IsNext r cs f rest g q v e h =
      let same : (g, q ++ joined cs) ≡ (f, rest) =
        some-injective _ _ (sym (cut-append_some r.stdout_buffer (joined cs) g q e) ∙ h) in
      let parts : remaining r cs ≡ (g ++ newline ∷ []) ++ (q ++ joined cs) =
        ap (λ s. s ++ joined cs) (cut_parts r.stdout_buffer g q e)
        ∙ append_assoc g (newline ∷ q) (joined cs)
        ∙ sym (append_assoc g (newline ∷ []) (q ++ joined cs)) in
      (
        record r { stdout_buffer = q },
        cs,
        (
          buffered exited r (closed cs) g q e
              ∙ ap
                  (λ (p : Bytes × Bytes).
                    (frame (strip_cr p.0), record r { stdout_buffer = q }, closed cs))
                  same,
          ap (λ (p : Bytes × Bytes). p.1) same,
          record {
            room = v.room;
            before_end = v.before_end;
            sized = v.sized;
            fits =
                LinesWithin-append bound (g ++ newline ∷ []) (q ++ joined cs)
                  (subst (LinesWithin bound) parts v.fits);
          },
        ),
      )

  frame-IsNext :
      (r : StdoutReader) (cs : List Bytes) (f rest : Bytes)
      → IsReady bound size r cs
      → cut (remaining r cs) ≡ some (f, rest)
      → (r' : StdoutReader) × (cs' : List Bytes) × IsNext r cs f rest r' cs'
  unfolding IsNext
  frame-IsNext r [] f rest v h = elim (Option-cases (cut r.stdout_buffer)) [
    | inl none_yet ↦
        absurd (ground (arith, sym none_yet ∙ ap cut (sym (append-nil r.stdout_buffer)) ∙ h))
    | inr (p, e) ↦ buffered-IsNext r [] f rest p.0 p.1 v e h
  ]
  frame-IsNext r (c ∷ cs) f rest v h = elim (Option-cases (cut r.stdout_buffer)) [
    | inl none_yet ↦
        let later =
          frame-IsNext (extend r c) cs f rest (extend-IsReady r c cs v)
            (ap cut (append_assoc r.stdout_buffer c (joined cs)) ∙ h) in
        (later.0, later.1, (grow_ready r c cs v none_yet ∙ later.2.0, later.2.1, later.2.2))
    | inr (p, e) ↦ buffered-IsNext r (c ∷ cs) f rest p.0 p.1 v e h
  ]

  no_cut : (s t : Bytes) → cut (s ++ t) ≡ none → cut s ≡ none
  no_cut s t h = elim (Option-cases (cut s)) [
    | inl e ↦ e
    | inr (p, e) ↦ absurd (ground (arith, sym (cut-append_some s t p.0 p.1 e) ∙ h))
  ]

  no_frame :
      (r : StdoutReader) (cs : List Bytes)
      → IsReady bound size r cs
      → cut (remaining r cs) ≡ none
      → (read_frame exited r (closed cs)).0 ≡ ending exited (remaining r cs)
  no_frame r [] v h =
      ends exited r (no_cut r.stdout_buffer [] h) v.before_end
      ∙ ap (ending exited) (sym (append-nil r.stdout_buffer))
  no_frame r (c ∷ cs) v h =
      let whole = append_assoc r.stdout_buffer c (joined cs) in
      ap (λ (o : Reading). o.0) (grow_ready r c cs v (no_cut r.stdout_buffer (c ++ joined cs) h))
      ∙ no_frame (extend r c) cs (extend-IsReady r c cs v) (ap cut whole ∙ h)
      ∙ ap (ending exited) whole

  stop :
      (n : ℕ) (r : StdoutReader) (chunks : List Bytes) (tail : Bytes)
      → (read_frame exited r chunks).0 ≡ ending exited tail
      → read_frames exited (suc n) r chunks ≡ ([], ending exited tail)
  unfolding read_frames after_read
  stop n r chunks [] h = ground (arith, h)
  stop n r chunks (c ∷ tail) h = ground (arith, h)

  go_on :
      (n : ℕ) (r r' : StdoutReader) (chunks rest : List Bytes) (f : Bytes)
      → read_frame exited r chunks ≡ (frame f, r', rest)
      → read_frames exited (suc n) r chunks
        ≡ (f ∷ (read_frames exited n r' rest).0, (read_frames exited n r' rest).1)
  unfolding read_frames after_read
  go_on n r r' chunks rest f h = ap (after_read exited (read_frames exited n)) h

  -- However the bytes of stdout fall into chunks, reading to the end yields the lines of the stream,
  -- each without its newline and without one carriage return before it, and then stops: as a partial
  -- frame if bytes are left after the last newline, and otherwise with the exit error of the process,
  -- or plainly. The limit must leave room for a chunk beside the longest line; one read for each
  -- line, and one more, are enough.
  pub read_frames_lem :
      (n : ℕ) (r : StdoutReader) (cs : List Bytes)
      → IsReady bound size r cs
      → length (lines (remaining r cs)).0 < n
      → read_frames exited n r (closed cs)
        ≡ (map strip_cr (lines (remaining r cs)).0, ending exited (lines (remaining r cs)).1)
  unfolding IsNext
  read_frames_lem zero r cs v h = absurd (omega arith)
  read_frames_lem (suc n) r cs v h = elim (Option-cases (cut (remaining r cs))) [
    | inl e ↦
        let all = lines_uncut (remaining r cs) e in
        stop n r (closed cs) (remaining r cs) (no_frame r cs v e)
        ∙ sym (ap (λ (p : List Bytes × Bytes). (map strip_cr p.0, ending exited p.1)) all)
    | inr (p, e) ↦
        let (r', cs', found) = frame-IsNext r cs p.0 p.1 v e in
        let all = lines-cut (remaining r cs) p.0 p.1 e in
        let rest = read_frames_lem n r' cs' found.2 (
          omega (
            arith,
            h,
            ap (λ (x : List Bytes × Bytes). length x.0) all,
            ap (λ t. length (lines t).0) found.1,
          )) in
        go_on n r r' (closed cs) (closed cs') (strip_cr p.0) found.0
        ∙ ap (λ (x : List Bytes × FrameRead). (strip_cr p.0 ∷ x.0, x.1)) rest
        ∙ ap (λ t. (strip_cr p.0 ∷ map strip_cr (lines t).0, ending exited (lines t).1)) found.1
        ∙ sym (ap (λ (x : List Bytes × Bytes). (map strip_cr x.0, ending exited x.1)) all)
  ]
