-- ===== src/Token.antt =====
-- graphql/token/token.go and graphql/token/location.go: the kinds of tokens, tokens, locations and
-- ranges. A token's Prev and Next links are kept by the lexer that makes the tokens, see
-- artemis.Lexer.Stream.
pub mod Source
pub mod Kinds
use artemis.Prelude.{ℕ, ◌+◌, Bool, true, not, ◌&&◌, [], ◌==◌, Bytes}

pub data Kind : Type 0 where
  sof eof bang dollar amp left_paren right_paren spread colon equals at_sign : Kind
  left_bracket right_bracket left_brace pipe right_brace : Kind
  name int float string block_string comment : Kind

-- `iota + 1`
unfoldable pub kind_code : Kind → ℕ
kind_code sof = 1
kind_code eof = 2
kind_code bang = 3
kind_code dollar = 4
kind_code amp = 5
kind_code left_paren = 6
kind_code right_paren = 7
kind_code spread = 8
kind_code colon = 9
kind_code equals = 10
kind_code at_sign = 11
kind_code left_bracket = 12
kind_code right_bracket = 13
kind_code left_brace = 14
kind_code pipe = 15
kind_code right_brace = 16
kind_code name = 17
kind_code int = 18
kind_code float = 19
kind_code string = 20
kind_code block_string = 21
kind_code comment = 22

-- `==` of two kinds
unfoldable pub same_kind : Kind → Kind → Bool
unfolding kind_code
same_kind j k = kind_code j == kind_code k

-- `SourceLocation`: a 1-based offset in bytes, 0 for none.
abbrev pub no_source_location : ℕ
no_source_location = 0

unfoldable pub is_valid_location : ℕ → Bool
is_valid_location location = not (location == no_source_location)

pub record SourceRange : Type 0 where
  pub begin : ℕ
  pub end : ℕ

unfoldable pub is_valid_range : SourceRange → Bool
unfolding is_valid_location
is_valid_range r = is_valid_location r.begin && is_valid_location r.end

pub record Token : Type 0 where
  pub kind : Kind
  pub location : ℕ
  pub length : ℕ
  pub value : Bytes

unfoldable pub end_location : Token → ℕ
end_location t = t.location + t.length

unfoldable pub range : Token → SourceRange
unfolding end_location
range t = record { begin = t.location; end = end_location t }

-- `NewSOFToken`, without the source that stands beside it.
unfoldable pub new_sof_token : Token
new_sof_token = record { kind = sof; location = no_source_location; length = 0; value = [] }
