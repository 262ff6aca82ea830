-- ===== src/Lexer/Action.antt =====
-- What a part of the tokenizer's loop body does: it passes the turn on, it continues the loop with
-- no token, or it adds a token and continues.
use lu_language.Prelude.{Bytes}
use lu_language.Lexer.State.{Lexer}
use lu_language.Lexer.Token.{TokenType}

pub data Action : Type 0 where
  pass : Action
  again : Lexer → Action
  emit : TokenType → Bytes → Lexer → Action

-- The parts stand one behind the other in the body, and each of them ends in `continue`.
infixr 10 ◌<|>◌
abbrev pub ◌<|>◌ : Action → Action → Action
pass <|> b = b
again l <|> b = again l
emit t v l <|> b = emit t v l
