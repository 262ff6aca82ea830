-- ===== src/Parser/Calls.antt =====
-- What the branches of the expression parser call, src/parser.c: the parsing functions themselves,
-- with less fuel, and the code outside of it.
use lu_language.Prelude.{ℕ, ℤ, Bytes, Bool, Option}
use lu_language.Lexer.Token.{TokenType}
use lu_language.Ast.{Node, Nodes}
use lu_language.Parser.Cursor.{Parse}

-- `strtoll(text, NULL, base)` and `atof`, of the C library, the latter with the bit pattern of its
-- result; and of the parser the functions for template strings, with the count of errors
-- before and after, and for statements.
pub record Outer : Type 0 where
  pub strtoll : Bytes → ℕ → ℤ
  pub atof : Bytes → ℕ
  pub template_at : Bytes → ℕ → ℕ → Node × ℕ
  pub parse_statement : Parse (Option Node)

-- The functions of the parser, each loop a function of its own.
pub record Calls : Type 0 where
  pub type_at : Parse Bytes
  pub return_at : Bytes → Parse Bytes
  pub params : ℕ → Bool → Bytes → Parse (Bytes × Nodes)
  pub statements : Parse Nodes
  pub primary : Parse Node
  pub args : TokenType → Parse Nodes
  pub chain : ℕ → Node → Parse Node
  pub postfix : Parse Node
  pub post : Node → Parse Node
  pub unary : Parse Node
  pub binop : ℕ → Parse Node
  pub climb : ℕ → Node → Parse Node
  pub expr : Parse Node
