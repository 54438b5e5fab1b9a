-- ===== src/Parser.antt =====
-- graphql/parser/parser.go and graphql/parser/interface.go, a module for each group of productions:
-- Tokens (skip, expect, lists), Values, Types, Directives (with arguments and variable definitions),
-- Selections, and Documents (definitions and the entry points).
pub mod Tokens
pub mod Values
pub mod Types
pub mod Directives
pub mod Selections
pub mod Documents
