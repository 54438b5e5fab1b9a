-- ===== src/Tests/JsonRuns.antt =====
-- Runs of jsonwriter, on a writer with room for a number of bytes.
use artemis.Prelude.{
  ℕ, zero, suc, ◌-◌, ◌≡◌, refl, ap, leb, true, if◌then◌else◌, Option, some, none, List, [], ◌∷◌,
  ◌++◌, Bytes, codes, length, take, drop, arith,
}
use artemis.JsonStream.{flush, new_stream}
use artemis.JsonStream.Refines.{IsWriter}
use artemis.JsonStream.Calls.{
  Call, object_start, object_field, string, more, bool, run, flush-Delivered, Delivered,
  text_of_all,
}
use artemis.JsonStream.Text.{write_string}
use artemis.JsonStream.Text.Literal.{IsBody, write_string-IsBody}
use artemis.JsonStream.Text.Escaped.{quoted, write_string-Writes}
use artemis.JsonStream.Refines.{Writes}

data Full : Type 0 where
  full : Full

abbrev room_for : ℕ → Bytes → Bytes → Bytes × Option Full
room_for n w b =
    (w ++ take (n - length w) b, if leb (length b) (n - length w) then none else some full)

take-drop : (n : ℕ) (b : Bytes) → take n b ++ drop n b ≡ b
take-drop zero b = refl
take-drop (suc n) [] = refl
take-drop (suc n) (c ∷ b) = ap (λ x. c ∷ x) (take-drop n b)

drop-all : (n : ℕ) (b : Bytes) → leb (length b) n ≡ true → drop n b ≡ []
drop-all zero [] h = refl
drop-all zero (c ∷ b) h = absurd (ground arith)
drop-all (suc n) [] h = refl
drop-all (suc n) (c ∷ b) h = drop-all n b (ground arith)

fitting :
    (n : ℕ) (b : Bytes) → (if leb (length b) n then none else some full) ≡ none → drop n b ≡ []
fitting n b h = ground (arith, drop-all n b)

room_for-IsWriter : (n : ℕ) → IsWriter (room_for n) (λ w. w)
room_for-IsWriter n = record {
  written = λ w b. take (n - length w) b;
  unwritten = λ w b. drop (n - length w) b;
  parts = λ w b. take-drop (n - length w) b;
  appends = λ w b. refl;
  complete = λ w b. fitting (n - length w) b;
}

abbrev answer : List Call
answer = object_start ∷ object_field (codes "a<b") ∷ string (codes "\n") ∷ more ∷ bool true ∷ []

abbrev hero : Bytes
hero = codes "R2-D2 <\"beep\">\n"

flush-Delivered_example :
    Delivered
      (room_for 9)
      (λ w. w)
      (room_for-IsWriter 9)
      (codes "//" ++ text_of_all answer)
      (flush (room_for 9) (run (room_for 9) answer (new_stream (codes "//")))).0
      (flush (room_for 9) (run (room_for 9) answer (new_stream (codes "//")))).1.w
flush-Delivered_example =
    flush-Delivered (room_for 9) (λ w. w) (room_for-IsWriter 9) (codes "//") answer

write_string-IsBody_example :
    (body : Bytes) × IsBody body
    × Writes
        (room_for 9)
        (λ w. w)
        (room_for-IsWriter 9)
        (b'"' ∷ (body ++ (b'"' ∷ [])))
        (write_string (room_for 9) hero)
write_string-IsBody_example = write_string-IsBody (room_for 9) (λ w. w) (room_for-IsWriter 9) hero

write_string-Writes_example :
    Writes
      (room_for 9)
      (λ w. w)
      (room_for-IsWriter 9)
      (quoted hero)
      (write_string (room_for 9) hero)
write_string-Writes_example = write_string-Writes (room_for 9) (λ w. w) (room_for-IsWriter 9) hero
