-- ===== src/JsonStream/Calls.antt =====
-- Sequences of calls on a stream, and what they say altogether.
use artemis.Prelude.{
  ◌≡◌, refl, sym, ap, ◌∙◌, subst, Bool, true, false, Option, some, none, List, [], ◌∷◌, ◌++◌,
  append-nil, Bytes, codes,
}
use artemis.JsonStream.{
  Stream, new_stream, write_bytes, write_bool, write_nil, write_more, write_array_start,
  write_array_end, write_empty_array, write_object_start, write_object_end, write_empty_object,
  unless_failed, write_buffer, write_raw_string, flush,
}
use artemis.JsonStream.Refines.{
  IsWriter, StartsWith, Holds, Written, Writes, Writes-then, write-Writes, write_bytes-Writes,
  unless_failed-Writes, write_buffer-Written,
}
use artemis.JsonStream.Text.{write_string, write_object_field}
use artemis.JsonStream.Text.Escaped.{quoted, write_string-Writes}

-- The methods that write, with their arguments.
pub data Call : Type 0 where
  raw_string : Bytes → Call
  more array_start array_end empty_array : Call
  object_start object_end empty_object : Call
  object_field : Bytes → Call
  bool : Bool → Call
  nil : Call
  string : Bytes → Call

-- The text of a call.
abbrev pub text_of : Call → Bytes
text_of (raw_string b) = b
text_of more = codes ","
text_of array_start = codes "["
text_of array_end = codes "]"
text_of empty_array = codes "[]"
text_of object_start = codes "{"
text_of object_end = codes "}"
text_of empty_object = codes "{}"
text_of (object_field f) = quoted f ++ codes ":"
text_of (bool true) = codes "true"
text_of (bool false) = codes "false"
text_of nil = codes "null"
text_of (string s) = quoted s

abbrev pub text_of_all : List Call → Bytes
text_of_all [] = []
text_of_all (c ∷ cs) = text_of c ++ text_of_all cs

module _ {W Err : Type 0} (write_to : W → Bytes → W × Option Err) where
  abbrev pub call : Call → Stream W Err → Stream W Err
  call (raw_string b) = write_raw_string write_to b
  call more = write_more
  call array_start = write_array_start
  call array_end = write_array_end
  call empty_array = write_empty_array
  call object_start = write_object_start
  call object_end = write_object_end
  call empty_object = write_empty_object
  call (object_field f) = write_object_field write_to f
  call (bool b) = write_bool b
  call nil = write_nil
  call (string s) = write_string write_to s

  abbrev pub run : List Call → Stream W Err → Stream W Err
  run [] s = s
  run (c ∷ cs) s = run cs (call c s)

module _ {W Err : Type 0} (write_to : W → Bytes → W × Option Err) (log : W → Bytes)
    (is_writer : IsWriter write_to log) where
  abbrev Adds : Bytes → (Stream W Err → Stream W Err) → Type 0
  Adds b f = Writes write_to log is_writer b f

  call-Adds : (c : Call) → Adds (text_of c) (call write_to c)
  unfolding write_raw_string write_more write_array_start write_array_end write_empty_array
      write_object_start write_object_end write_empty_object write_object_field write_bool write_nil
  call-Adds (raw_string b) = write-Writes write_to log is_writer b
  call-Adds (object_field f) =
      Writes-then write_to log is_writer (quoted f) (codes ":") (write_string write_to f)
        (write_bytes (codes ":")) (write_string-Writes write_to log is_writer f)
        (write_bytes-Writes write_to log is_writer (codes ":"))
  call-Adds (string s) = write_string-Writes write_to log is_writer s
  call-Adds (bool true) = write_bytes-Writes write_to log is_writer _
  call-Adds (bool false) = write_bytes-Writes write_to log is_writer _
  call-Adds more = write_bytes-Writes write_to log is_writer _
  call-Adds array_start = write_bytes-Writes write_to log is_writer _
  call-Adds array_end = write_bytes-Writes write_to log is_writer _
  call-Adds empty_array = write_bytes-Writes write_to log is_writer _
  call-Adds object_start = write_bytes-Writes write_to log is_writer _
  call-Adds object_end = write_bytes-Writes write_to log is_writer _
  call-Adds empty_object = write_bytes-Writes write_to log is_writer _
  call-Adds nil = write_bytes-Writes write_to log is_writer _

  run-Adds : (cs : List Call) → Adds (text_of_all cs) (run write_to cs)
  run-Adds [] text s h = subst (λ x. Written write_to log is_writer x s) (sym (append-nil text)) h
  run-Adds (c ∷ cs) text s h =
      Writes-then write_to log is_writer (text_of c) (text_of_all cs) (call write_to c)
        (run write_to cs) (call-Adds c) (run-Adds cs) text s h

  -- The stream that Flush leaves.
  abbrev flushed : Stream W Err → Stream W Err
  flushed s = unless_failed write_to (write_buffer write_to) s.err s

  flushed-Written :
      (text : Bytes) (s : Stream W Err)
      → Written write_to log is_writer text s
      → Written write_to log is_writer text (flushed s)
  flushed-Written text s h =
      subst (λ x. Written write_to log is_writer x (flushed s)) (append-nil text)
        (unless_failed-Writes write_to log is_writer [] (write_buffer write_to) text s
          (λ n g.
            subst (λ x. Written write_to log is_writer x (write_buffer write_to s))
              (sym (append-nil text)) (write_buffer-Written write_to log is_writer text s n g))
          s.err refl h)

  flushed_buf :
      (s : Stream W Err) (e : Option Err)
      → s.err ≡ e
      → (unless_failed write_to (write_buffer write_to) e s).err ≡ none
      → (unless_failed write_to (write_buffer write_to) e s).buf ≡ []
  unfolding unless_failed write_buffer
  flushed_buf s none q h = refl
  flushed_buf s (some e) q h = cc

  -- With no error the writer has the whole text, and after one the start of it.
  abbrev pub Delivered : Bytes → Option Err → Bytes → Type 0
  Delivered text none out = out ≡ text
  Delivered text (some e) out = StartsWith text out

  delivered :
      (text out buf : Bytes) (e : Option Err)
      → (e ≡ none → buf ≡ [])
      → Holds write_to log is_writer text out buf e
      → Delivered text e out
  delivered text out buf none k h = sym (append-nil out) ∙ (ap (λ x. out ++ x) (sym (k refl)) ∙ h)
  delivered text out buf (some e) k h = h

  -- Over a writer that behaves as io.Writer documents, any calls on a new stream and a Flush: if
  -- Flush returns no error, the writer has been given the texts of the calls, all and in order, the
  -- small ones that wait in the buffer with those that are written through; if it returns an error,
  -- the writer has the start of that text and nothing else.
  pub flush-Delivered :
      (w : W) (cs : List Call)
      → Delivered
          (log w ++ text_of_all cs)
          (flush write_to (run write_to cs (new_stream w))).0
          (log (flush write_to (run write_to cs (new_stream w))).1.w)
  unfolding flush new_stream
  flush-Delivered w cs =
      let s = run write_to cs (new_stream w) in
      delivered (log w ++ text_of_all cs) (log (flushed s).w) (flushed s).buf (flushed s).err
        (flushed_buf s s.err refl)
        (flushed-Written (log w ++ text_of_all cs) s
          (run-Adds cs (log w) (new_stream w) (append-nil (log w))))
