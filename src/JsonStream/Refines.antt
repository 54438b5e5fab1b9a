-- ===== src/JsonStream/Refines.antt =====
-- What reaches the io.Writer is what was written to the stream, in order.
use artemis.Prelude.{
  ◌+◌, ◌≡◌, refl, false, sym, ap, ◌∙◌, subst, ltb, arith, Option, some, none, [], ◌∷◌, ◌++◌,
  append_assoc, append-nil, Bytes, length, Bool-cases, inl, inr,
}
use artemis.JsonStream.{
  Stream, write_bytes, write_through, write_buffer, unless_failed, write_ready, write,
}

-- What io.Writer documents of Write: it writes a part from the start of the bytes given, all of
-- them unless it returns an error. `log` is what a writer has written.
pub record IsWriter {W Err : Type 0} (write_to : W → Bytes → W × Option Err) (log : W → Bytes)
    : Type 0 where
  pub written : W → Bytes → Bytes
  pub unwritten : W → Bytes → Bytes
  pub parts : (w : W) (b : Bytes) → written w b ++ unwritten w b ≡ b
  pub appends : (w : W) (b : Bytes) → log (write_to w b).0 ≡ log w ++ written w b
  pub complete : (w : W) (b : Bytes) → (write_to w b).1 ≡ none → unwritten w b ≡ []

-- Bytes that start with others.
abbrev pub StartsWith : Bytes → Bytes → Type 0
StartsWith text p = (rest : Bytes) × (p ++ rest ≡ text)

module _ {W Err : Type 0} (write_to : W → Bytes → W × Option Err) (log : W → Bytes)
    (is_writer : IsWriter write_to log) where
  -- With no error, the text is in the writer and the buffer; after one, the writer has the start of
  -- it.
  abbrev pub Holds : Bytes → Bytes → Bytes → Option Err → Type 0
  Holds text out buf none = out ++ buf ≡ text
  Holds text out buf (some e) = StartsWith text out

  abbrev pub Written : Bytes → Stream W Err → Type 0
  Written text s = Holds text (log s.w) s.buf s.err

  Written-append_none : (text out buf b : Bytes) → out ++ buf ≡ text → out ++ (buf ++ b) ≡ text ++ b
  Written-append_none text out buf b h = sym (append_assoc out buf b) ∙ ap (λ x. x ++ b) h

  -- Bytes added to the buffer are added to the text; after an error too, when they go nowhere.
  Holds-append :
      (text out buf b : Bytes) (e : Option Err)
      → Holds text out buf e
      → Holds (text ++ b) out (buf ++ b) e
  Holds-append text out buf b none h = Written-append_none text out buf b h
  Holds-append text out buf b (some e) (rest, h) =
      (rest ++ b, Written-append_none text out rest b h)

  -- Bytes handed to the writer behind all that it has.
  sent :
      (b : Bytes) (w : W) (e : Option Err)
      → (write_to w b).1 ≡ e
      → Holds (log w ++ b) (log (write_to w b).0) [] e
  sent b w none q =
      append-nil (log (write_to w b).0)
      ∙ (is_writer.appends w b
          ∙ ap (λ x. log w ++ x)
              (sym (append-nil (is_writer.written w b))
                ∙ (ap (λ x. is_writer.written w b ++ x) (sym (is_writer.complete w b q))
                    ∙ is_writer.parts w b)))
  sent b w (some e) q = (
    is_writer.unwritten w b,
    ap (λ x. x ++ is_writer.unwritten w b) (is_writer.appends w b)
        ∙ (append_assoc (log w) (is_writer.written w b) (is_writer.unwritten w b)
            ∙ ap (λ x. log w ++ x) (is_writer.parts w b)),
  )

  nothing : (b : Bytes) → ltb 0 (length b) ≡ false → b ≡ []
  nothing [] h = refl
  nothing (c ∷ b) h = absurd (ground arith)

  write_through-Holds :
      (b : Bytes) (s : Stream W Err)
      → s.err ≡ none
      → Holds
          (log s.w ++ b)
          (log (write_through write_to b s).w)
          []
          (write_through write_to b s).err
  unfolding write_through
  write_through-Holds b s n = elim (Bool-cases (ltb 0 (length b))) [
    | inl e ↦ rw e (sent b s.w (write_to s.w b).1 refl)
    | inr e ↦ rw e (
        subst (λ x. Holds (log s.w ++ b) (log s.w) [] x) (sym n)
          (ap (λ x. log s.w ++ x) (sym (nothing b e))))
  ]

  write_through_buf : (b : Bytes) (s : Stream W Err) → (write_through write_to b s).buf ≡ s.buf
  unfolding write_through
  write_through_buf b s = elim (Bool-cases (ltb 0 (length b))) [
    | inl e ↦ rw e refl
    | inr e ↦ rw e refl
  ]

  -- A call that adds `b` to the text.
  abbrev pub Writes : Bytes → (Stream W Err → Stream W Err) → Type 0
  Writes b f = (text : Bytes) (s : Stream W Err) → Written text s → Written (text ++ b) (f s)

  pub unless_failed-Writes :
      (b : Bytes) (f : Stream W Err → Stream W Err) (text : Bytes) (s : Stream W Err)
      → (s.err ≡ none → log s.w ++ s.buf ≡ text → Written (text ++ b) (f s))
      → (e : Option Err) → s.err ≡ e
      → Holds text (log s.w) s.buf e
      → Written (text ++ b) (unless_failed write_to f e s)
  unfolding unless_failed
  unless_failed-Writes b f text s k none q h = k q h
  unless_failed-Writes b f text s k (some e) q (rest, h) =
      subst (λ x. Holds (text ++ b) (log s.w) s.buf x) (sym q)
        (rest ++ b, Written-append_none text (log s.w) rest b h)

  pub write_buffer-Written :
      (text : Bytes) (s : Stream W Err)
      → s.err ≡ none
      → log s.w ++ s.buf ≡ text
      → Written text (write_buffer write_to s)
  unfolding write_buffer
  write_buffer-Written text s n h =
      subst
        (λ x.
          Holds x (log (write_through write_to s.buf s).w) [] (write_through write_to s.buf s).err)
        h (write_through-Holds s.buf s n)

  -- Behind an empty buffer the bytes go to the writer.
  send-Written :
      (text b : Bytes) (s : Stream W Err)
      → s.buf ≡ []
      → s.err ≡ none
      → log s.w ++ s.buf ≡ text
      → Written (text ++ b) (write_through write_to b s)
  send-Written text b s z n h =
      subst
        (λ x.
          Holds (text ++ b) (log (write_through write_to b s).w) x (write_through write_to b s).err)
        (sym (write_through_buf b s ∙ z))
        (subst
          (λ x.
            Holds (x ++ b) (log (write_through write_to b s).w) [] (write_through write_to b s).err)
          (sym (append-nil (log s.w)) ∙ (ap (λ x. log s.w ++ x) (sym z) ∙ h))
          (write_through-Holds b s n))

  write_ready-Written :
      (text b : Bytes) (s : Stream W Err)
      → s.err ≡ none
      → log s.w ++ s.buf ≡ text
      → Written (text ++ b) (write_ready write_to b s)
  unfolding write_ready write_buffer
  write_ready-Written text b s n h = elim (Bool-cases (ltb (length s.buf + length b) 512)) [
    | inl e ↦ rw e (
        subst (λ x. Holds (text ++ b) (log s.w) (s.buf ++ b) x) (sym n)
          (Written-append_none text (log s.w) s.buf b h))
    | inr e ↦ rw e (
        unless_failed-Writes b (write_through write_to b) text (write_buffer write_to s)
          (send-Written text b (write_buffer write_to s) refl) (write_buffer write_to s).err refl
          (write_buffer-Written text s n h))
  ]

  pub write-Writes : (b : Bytes) → Writes b (write write_to b)
  unfolding write
  write-Writes b text s h =
      unless_failed-Writes b (write_ready write_to b) text s (write_ready-Written text b s) s.err
        refl h

  pub write_bytes-Writes : (b : Bytes) → Writes b (write_bytes b)
  unfolding write_bytes
  write_bytes-Writes b text s h = Holds-append text (log s.w) s.buf b s.err h

  pub Writes-then :
      (b c : Bytes) (f g : Stream W Err → Stream W Err)
      → Writes b f
      → Writes c g
      → Writes (b ++ c) (λ s. g (f s))
  Writes-then b c f g p q text s h =
      subst (λ x. Written x (g (f s))) (append_assoc text b c) (q (text ++ b) (f s) (p text s h))
