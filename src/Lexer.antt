-- ===== src/Lexer.antt =====
-- graphql/lexer/lexer.go, a module for each group of its methods: Cursor (peek, consume, errors,
-- tokens), Whitespace, Number, Text (strings), BlockText, Scan (names, comments, lexToken) and
-- Stream (the Lexer itself: Advance and Lookahead).
pub mod Cursor
pub mod Whitespace
pub mod Number
pub mod Text
pub mod BlockText
pub mod Scan
pub mod Stream
