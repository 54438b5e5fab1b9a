-- ===== src/Tests/BlockRuns.antt =====
-- Runs of graphql/internal/lexer.
use artemis.Prelude.{none, List, [], ◌∷◌, Bytes, codes, ◌⊎◌}
use artemis.BlockString.{block_string_lines, common_indent, dedent_rest}
use artemis.BlockString.Lines.{AreLines, StartsFull, EndsFull, block_string_lines-EndsFull}
use artemis.BlockString.Indent.{
  IsLeast, AreBlank, Attains, common_indent-IsLeast, dedent_rest-Attains,
}

abbrev raw_text : Bytes
raw_text = codes "\n    Hello,\r\n      World!\r\n\n    Yours,\n  \n"

abbrev text_lines : List Bytes
text_lines = codes "    Hello," ∷ codes " " ∷ codes "  World!" ∷ []

block_string_lines-EndsFull_example :
    AreLines (block_string_lines raw_text)
    × StartsFull (block_string_lines raw_text)
    × EndsFull (block_string_lines raw_text)
block_string_lines-EndsFull_example = block_string_lines-EndsFull raw_text

common_indent-IsLeast_example : IsLeast text_lines (common_indent none text_lines)
common_indent-IsLeast_example = common_indent-IsLeast text_lines

dedent_rest-Attains_example :
    AreBlank text_lines ⊎ Attains 0 (dedent_rest (common_indent none text_lines) text_lines)
dedent_rest-Attains_example = dedent_rest-Attains text_lines
