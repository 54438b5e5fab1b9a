-- ===== src/Token/Kinds.antt =====
-- `==` of two kinds decides their equality.
use artemis.Prelude.{
  ℕ, ◌≡◌, ◌≢◌, refl, inl, inr, Bool-cases, sym, ap, ◌∙◌, true, false, ◌==◌, if◌then◌else◌, arith,
}
use artemis.Token.{
  Kind, kind_code, same_kind, sof, eof, bang, dollar, amp, left_paren, right_paren, spread, colon,
  equals, at_sign, left_bracket, right_bracket, left_brace, pipe, right_brace, name, int, float,
  string, block_string, comment,
}

code_kind : ℕ → Kind
code_kind c =
    if c == 1
    then sof
    else if c == 2
    then eof
    else if c == 3
    then bang
    else if c == 4
    then dollar
    else if c == 5
    then amp
    else if c == 6
    then left_paren
    else if c == 7
    then right_paren
    else if c == 8
    then spread
    else if c == 9
    then colon
    else if c == 10
    then equals
    else if c == 11
    then at_sign
    else if c == 12
    then left_bracket
    else if c == 13
    then right_bracket
    else if c == 14
    then left_brace
    else if c == 15
    then pipe
    else if c == 16
    then right_brace
    else if c == 17
    then name
    else if c == 18
    then int
    else if c == 19
    then float
    else if c == 20
    then string
    else if c == 21
    then block_string
    else comment

code_kind-kind_code : (k : Kind) → code_kind (kind_code k) ≡ k
unfolding code_kind kind_code
code_kind-kind_code sof = refl
code_kind-kind_code _ = refl

pub same_kind→eq : (j k : Kind) → same_kind j k ≡ true → j ≡ k
unfolding same_kind
same_kind→eq j k h =
    let codes : kind_code j ≡ kind_code k = ground arith in
    sym (code_kind-kind_code j) ∙ ap code_kind codes ∙ code_kind-kind_code k

pub same_kind_refl : (k : Kind) → same_kind k k ≡ true
unfolding same_kind
same_kind_refl sof = refl
same_kind_refl _ = refl

pub same_kind→ne : (j k : Kind) → same_kind j k ≡ false → j ≢ k
same_kind→ne j k h e = cc (same_kind_refl k, ap (λ x. same_kind x k) e)

pub ne→same_kind : (j k : Kind) → j ≢ k → same_kind j k ≡ false
ne→same_kind j k h = elim (Bool-cases (same_kind j k)) [
  | inl e ↦ absurd (h (same_kind→eq j k e))
  | inr e ↦ e
]
