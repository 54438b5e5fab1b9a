-- ===== src/JsonStream/Text/Escaped.antt =====
-- The text that WriteString writes, one character at a time.
use artemis.Prelude.{
  ℕ, zero, suc, ◌≤◌, ◌≡◌, refl, sym, ap, ◌∙◌, subst, true, ltb, ◌&&◌, arith, Option, some, none, [],
  ◌∷◌, ◌++◌, append_assoc, append-nil, Bytes, length, take, drop, length-drop, Bool-cases, inl, inr,
  ◌-◌,
}
use artemis.JsonStream.{Stream, write_bytes, write_raw_string}
use artemis.JsonStream.Refines.{
  IsWriter, Written, Writes, Writes-then, write-Writes, write_bytes-Writes,
}
use artemis.Utf8.{decode_rune}
use artemis.JsonStream.Text.{
  escape_rune, escape_next, next_pending, write_pending, write_escape, finish_string, slow_path,
  fast_path, write_string, html_safe_set,
}

-- A character as it is written.
abbrev pub spelled : Option Bytes → Bytes → Bytes
spelled none char = char
spelled (some e) char = e

-- The text for the bytes behind those that are done with already.
unfoldable pub escaped_after : ℕ → Bytes → Bytes
escaped_after n [] = []
escaped_after (suc n) (b ∷ rest) = escaped_after n rest
escaped_after zero (b ∷ rest) =
    let next = escape_next b rest in
    spelled next.0 (take next.1 (b ∷ rest)) ++ escaped_after (next.1 - 1) rest

unfoldable pub escaped : Bytes → Bytes
unfolding escaped_after
escaped s = escaped_after 0 s

abbrev pub quoted : Bytes → Bytes
quoted s = (b'"' ∷ []) ++ (escaped s ++ (b'"' ∷ []))

escaped_after-drop : (n : ℕ) (s : Bytes) → escaped_after n s ≡ escaped_after 0 (drop n s)
unfolding escaped_after
escaped_after-drop zero s = refl
escaped_after-drop (suc n) [] = refl
escaped_after-drop (suc n) (b ∷ s) = escaped_after-drop n s

decode_rune_width : (b : ℕ) (rest : Bytes) → 1 ≤ (decode_rune (b ∷ rest)).1
unfolding decode_rune
decode_rune_width b rest = ground arith

escape_next_width : (b : ℕ) (rest : Bytes) → 1 ≤ (escape_next b rest).1
unfolding escape_next escape_rune
escape_next_width b rest = ground (arith, decode_rune_width b rest)

tail :
    (w b : ℕ) (rest : Bytes)
    → 1 ≤ w
    → escaped_after (w - 1) rest ≡ escaped_after 0 (drop w (b ∷ rest))
tail zero b rest h = absurd (omega arith)
tail (suc w) b rest h =
    subst (λ x. escaped_after x rest ≡ escaped_after 0 (drop w rest)) (omega arith)
      (escaped_after-drop w rest)

-- One character and the rest.
escaped-next :
    (b : ℕ) (rest : Bytes)
    → escaped_after 0 (b ∷ rest)
      ≡ spelled (escape_next b rest).0 (take (escape_next b rest).1 (b ∷ rest))
        ++ escaped_after 0 (drop (escape_next b rest).1 (b ∷ rest))
unfolding escaped_after
escaped-next b rest =
    ap (λ x. spelled (escape_next b rest).0 (take (escape_next b rest).1 (b ∷ rest)) ++ x)
      (tail (escape_next b rest).1 b rest (escape_next_width b rest))

escape_next-safe :
    (c : ℕ) (cs : Bytes) → (ltb c 0x80 && html_safe_set c) ≡ true → escape_next c cs ≡ (none, 1)
unfolding escape_next
escape_next-safe c cs h = ground arith

module _ {W Err : Type 0} (write_to : W → Bytes → W × Option Err) (log : W → Bytes)
    (is_writer : IsWriter write_to log) where
  abbrev Adds : Bytes → (Stream W Err → Stream W Err) → Type 0
  Adds b f = Writes write_to log is_writer b f

  respell : (b c : Bytes) (f : Stream W Err → Stream W Err) → b ≡ c → Adds b f → Adds c f
  respell b c f e p = subst (λ x. Adds x f) e p

  write_pending-Adds : (pending : Bytes) → Adds pending (write_pending write_to pending)
  unfolding write_pending write_raw_string
  write_pending-Adds [] text s h =
      subst (λ x. Written write_to log is_writer x s) (sym (append-nil text)) h
  write_pending-Adds (c ∷ pending) text s h = elim (Bool-cases (ltb 0 (length (c ∷ pending)))) [
    | inl e ↦ rw e (write-Writes write_to log is_writer (c ∷ pending) text s h)
    | inr e ↦ absurd (ground arith)
  ]

  finish_string-Adds :
      (pending : Bytes) → Adds (pending ++ (b'"' ∷ [])) (finish_string write_to pending)
  unfolding finish_string
  finish_string-Adds pending =
      Writes-then write_to log is_writer pending (b'"' ∷ []) (write_pending write_to pending)
        (write_bytes (b'"' ∷ [])) (write_pending-Adds pending)
        (write_bytes-Writes write_to log is_writer (b'"' ∷ []))

  -- A round writes what was pending if the character is escaped, and else adds to it.
  round-Adds :
      (e : Option Bytes) (pending char tail : Bytes) (f : Stream W Err → Stream W Err)
      → Adds (next_pending e pending char ++ tail) f
      → Adds (pending ++ (spelled e char ++ tail)) (λ s. f (write_escape write_to e pending s))
  unfolding next_pending write_escape
  round-Adds none pending char tail f h = respell _ _ f (append_assoc pending char tail) h
  round-Adds (some e) pending char tail f h =
      Writes-then write_to log is_writer pending (e ++ tail) (write_pending write_to pending)
        (λ s. f (write_bytes e s)) (write_pending-Adds pending)
        (Writes-then write_to log is_writer e tail (write_bytes e) f
          (write_bytes-Writes write_to log is_writer e) h)

  slow_path-Adds :
      (rounds : ℕ) (pending rest : Bytes)
      → length rest ≤ rounds
      → Adds
          (pending ++ (escaped_after 0 rest ++ (b'"' ∷ [])))
          (slow_path write_to rounds pending rest)
  unfolding slow_path escaped_after
  slow_path-Adds rounds pending [] h = finish_string-Adds pending
  slow_path-Adds zero pending (b ∷ rest) h = absurd (omega arith)
  slow_path-Adds (suc rounds) pending (b ∷ rest) h =
      let e = (escape_next b rest).0 in
      let w = (escape_next b rest).1 in
      let char = take w (b ∷ rest) in
      let later = drop w (b ∷ rest) in
      respell _ _ (slow_path write_to (suc rounds) pending (b ∷ rest))
        (ap (λ x. pending ++ x)
          (sym (append_assoc (spelled e char) (escaped_after 0 later) (b'"' ∷ []))
            ∙ ap (λ x. x ++ (b'"' ∷ [])) (sym (escaped-next b rest))))
        (round-Adds e pending char (escaped_after 0 later ++ (b'"' ∷ []))
          (slow_path write_to rounds (next_pending e pending char) later)
          (slow_path-Adds rounds (next_pending e pending char) later
            (omega (arith, length-drop w (b ∷ rest), escape_next_width b rest, h))))

  escaped-safe :
      (c : ℕ) (cs : Bytes)
      → (ltb c 0x80 && html_safe_set c) ≡ true
      → escaped_after 0 (c ∷ cs) ≡ c ∷ escaped_after 0 cs
  escaped-safe c cs h =
      subst
        (λ x.
          escaped_after 0 (c ∷ cs)
          ≡ spelled x.0 (take x.1 (c ∷ cs)) ++ escaped_after 0 (drop x.1 (c ∷ cs)))
        (escape_next-safe c cs h) (escaped-next c cs)

  fast_path-Adds : (s : Bytes) → Adds (escaped_after 0 s ++ (b'"' ∷ [])) (fast_path write_to s)
  unfolding fast_path escaped_after
  fast_path-Adds [] text s h = write_bytes-Writes write_to log is_writer (b'"' ∷ []) text s h
  fast_path-Adds (c ∷ cs) text s h = elim (Bool-cases (ltb c 0x80 && html_safe_set c)) [
    | inl e ↦
        rw (e, fast_path)
          (respell (c ∷ (escaped_after 0 cs ++ (b'"' ∷ []))) _ _
            (ap (λ x. x ++ (b'"' ∷ [])) (sym (escaped-safe c cs e)))
            (Writes-then write_to log is_writer (c ∷ []) (escaped_after 0 cs ++ (b'"' ∷ []))
              (write_bytes (c ∷ [])) (fast_path write_to cs)
              (write_bytes-Writes write_to log is_writer (c ∷ [])) (fast_path-Adds cs))
            text s h)
    | inr e ↦
        rw (e, fast_path) (slow_path-Adds (suc (length cs)) [] (c ∷ cs) (omega arith) text s h)
  ]

  -- WriteString adds the text of the string, between quotes, to what the stream has written,
  -- whatever was written before and whether or not the writer fails: what waits between `start` and
  -- `i` is written in its place.
  pub write_string-Writes : (s : Bytes) → Adds (quoted s) (write_string write_to s)
  unfolding write_string escaped
  write_string-Writes s =
      Writes-then write_to log is_writer (b'"' ∷ []) (escaped s ++ (b'"' ∷ []))
        (write_bytes (b'"' ∷ [])) (fast_path write_to s)
        (write_bytes-Writes write_to log is_writer (b'"' ∷ [])) (fast_path-Adds s)
