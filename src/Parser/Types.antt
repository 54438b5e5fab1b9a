-- ===== src/Parser/Types.antt =====
-- parser.go: parseType and parseNamedType.
pub mod Reads
use artemis.Prelude.{ℕ, zero, suc, true, false}
use artemis.Prelude.Outcome.{ok, panic, out_of_fuel}
use artemis.Prelude.Outcome
use artemis.Token.{left_bracket, right_bracket, bang}
use artemis.Ast.{Name, AstType, named_type, list_type, non_null_type}
use artemis.Parser.Tokens.{Parser, ◌>>=◌, pure, choose, skip, expect, parse_name}

-- `ast.NonNullType{Type: t.(ast.NullableType)}`: the type assertion panics on a non-null type.
unfoldable pub make_non_null : AstType → Parser AstType
make_non_null (named_type n) l = ok (non_null_type (named_type n), l)
make_non_null (list_type t) l = ok (non_null_type (list_type t), l)
make_non_null (non_null_type t) l = panic

-- The first loop: the brackets opened, and the name within them.
unfoldable pub open_lists : ℕ → ℕ → Parser (ℕ × Name)
open_lists zero level l = out_of_fuel
open_lists (suc n) level l = Outcome.◌>>=◌ (skip left_bracket l) λ (opening, l₁). elim opening [
  | true ↦ open_lists n (suc level) l₁
  | false ↦ Outcome.◌>>=◌ (parse_name l₁) λ (name, l₂). ok ((level, name), l₂)
]

-- A `!` behind the type, if there is one.
unfoldable pub non_null_suffix : AstType → Parser AstType
non_null_suffix t = do is_non_null ← skip bang; choose is_non_null (make_non_null t) (pure t)

-- The second loop: one closing bracket for each level.
unfoldable pub close_lists : ℕ → AstType → Parser AstType
close_lists zero t l = ok (t, l)
close_lists (suc level) t l = Outcome.◌>>=◌ (non_null_suffix t l) λ (item, l₁).
    Outcome.◌>>=◌ (expect right_bracket l₁) λ (_, l₂). close_lists level (list_type item) l₂

unfoldable pub parse_type : ℕ → Parser AstType
parse_type n = do
  opened ← open_lists n 0
  t ← close_lists opened.0 (named_type opened.1)
  non_null_suffix t

-- The node of a named type is that of its name.
unfoldable pub parse_named_type : Parser Name
parse_named_type = parse_name
