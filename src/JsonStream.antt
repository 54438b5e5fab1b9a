-- ===== src/JsonStream.antt =====
-- jsonwriter/stream.go: the Stream, a buffer in front of an io.Writer. The io.Writer is code outside
-- of the repository: `W` is its state, `Err` Go's type of errors and `write_to` its Write.
pub mod Refines
pub mod Calls
pub mod Text
use artemis.Prelude.{
  ℕ, ◌+◌, Bool, true, false, ltb, if◌then◌else◌, Option, some, none, List, [], ◌∷◌, ◌++◌, Bytes,
  codes, length,
}

pub record Stream (W Err : Type 0) : Type 0 where
  pub w : W
  pub buf : Bytes
  pub err : Option Err

abbrev initial_stream_buf_size : ℕ
initial_stream_buf_size = 512

module _ {W Err : Type 0} where
  unfoldable pub new_stream : W → Stream W Err
  new_stream w = record { w = w; buf = []; err = none }

  -- `writeOneByte` to `writeSixBytes`, which do not look at the error.
  unfoldable pub write_bytes : Bytes → Stream W Err → Stream W Err
  write_bytes b s = record s { buf = s.buf ++ b }

  unfoldable pub write_bool : Bool → Stream W Err → Stream W Err
  write_bool true = write_bytes (codes "true")
  write_bool false = write_bytes (codes "false")

  unfoldable pub write_nil : Stream W Err → Stream W Err
  write_nil = write_bytes (codes "null")

  unfoldable pub write_more : Stream W Err → Stream W Err
  write_more = write_bytes (codes ",")

  unfoldable pub write_array_start : Stream W Err → Stream W Err
  write_array_start = write_bytes (codes "[")

  unfoldable pub write_array_end : Stream W Err → Stream W Err
  write_array_end = write_bytes (codes "]")

  unfoldable pub write_empty_array : Stream W Err → Stream W Err
  write_empty_array = write_bytes (codes "[]")

  unfoldable pub write_object_start : Stream W Err → Stream W Err
  write_object_start = write_bytes (codes "{")

  unfoldable pub write_object_end : Stream W Err → Stream W Err
  write_object_end = write_bytes (codes "}")

  unfoldable pub write_empty_object : Stream W Err → Stream W Err
  write_empty_object = write_bytes (codes "{}")

  module _ (write_to : W → Bytes → W × Option Err) where
    -- `stream.w.Write(b)` unless there is nothing to write; its error is kept.
    unfoldable pub write_through : Bytes → Stream W Err → Stream W Err
    write_through b s =
        if ltb 0 (length b)
        then record s { w = (write_to s.w b).0; err = (write_to s.w b).1 }
        else s

    -- The bytes in the buffer are written, and it is reset.
    unfoldable pub write_buffer : Stream W Err → Stream W Err
    write_buffer s = record (write_through s.buf s) { buf = [] }

    -- After an error nothing is written.
    unfoldable pub unless_failed :
        (Stream W Err → Stream W Err) → Option Err → Stream W Err → Stream W Err
    unless_failed f (some e) s = s
    unless_failed f none s = f s

    -- `write` behind its first test.
    unfoldable pub write_ready : Bytes → Stream W Err → Stream W Err
    write_ready b s =
        if ltb (length s.buf + length b) initial_stream_buf_size
        then record s { buf = s.buf ++ b }
        else unless_failed (write_through b) (write_buffer s).err (write_buffer s)

    unfoldable pub write : Bytes → Stream W Err → Stream W Err
    write b s = unless_failed (write_ready b) s.err s

    unfoldable pub write_raw_string : Bytes → Stream W Err → Stream W Err
    write_raw_string b s = write b s

    unfoldable pub flush : Stream W Err → Option Err × Stream W Err
    flush s = let r = unless_failed write_buffer s.err s in (r.err, r)
