-- ===== src/Lexer/Rules/Commands.antt =====
-- The game commands, the memory and network commands and the definitions: the part of the loop
-- body of `lexer_tokenize` from `cr(` to `/lang/`.
use lu_language.Prelude.{
  ℕ, ◌-◌, Bytes, not, ◌&&◌, ◌||◌, [], ◌∷◌, ◌++◌, length, ltb, ◌==◌, if◌then◌else◌, String, codes,
  isalnum,
}
use lu_language.Lexer.Action.{Action, pass, emit, ◌<|>◌}
use lu_language.Lexer.Rules.Keywords.{fixed}
use lu_language.Lexer.State.{
  Lexer, cur, peek, advance, advance_by, starts_with, read_payload, read_cor, read_brace_payload,
}
use lu_language.Lexer.Token.{
  TokenType, tok_cr, tok_dam, tok_onl, tok_func_call, tok_dist, tok_mode, tok_ptr, tok_cor,
  tok_type_cor, tok_inq, tok_snd_mes, tok_rec, tok_send, tok_bcast, tok_def_const, tok_def_config,
  tok_linref, tok_lang_bind,
}

-- `cr(`, `dam(`, `onl(`, `func(`: the text up to `)` is the value.
unfoldable pub command : String → TokenType → Lexer → Action
command s t l =
    let (buf, m) = read_payload 128 b')' (advance_by (length (codes s)) l) in
    if starts_with l s then emit t buf m else pass

unfoldable pub game_command : Lexer → Action
game_command l =
    command "cr(" tok_cr l
    <|> command "dam(" tok_dam l
    <|> command "onl(" tok_onl l
    <|> command "func(" tok_func_call l

unfoldable pub distance : Lexer → Action
distance l =
    if starts_with l "distance" && not (isalnum (peek l 8) || peek l 8 == b'_' || peek l 8 == b'.')
    then emit tok_dist (codes "distance") (advance_by 8 l)
    else pass

unfoldable pub mode : ℕ → Lexer → Action
mode c l =
    if c == b'M' && peek l 1 == b'/' then emit tok_mode (codes "M/") (advance_by 2 l) else pass

unfoldable pub cor : Lexer → Action
cor l =
    let m = advance_by 4 l in
    if starts_with l "cor/"
    then if cur m == b'{'
      then emit tok_cor (read_cor m).0 (read_cor m).1
      else emit tok_type_cor (codes "cor") m
    else pass

-- `Snd{` and `Bcast{`; `width` bytes stand before the brace.
unfoldable pub braced : String → ℕ → TokenType → Lexer → Action
braced s width t l =
    let (p, m) = read_brace_payload (advance_by width l) in
    if starts_with l s then emit t p m else pass

-- `Def:anw(`, with an optional `/Lin` behind the parenthesis.
unfoldable pub linref : Lexer → Action
linref l =
    let (buf, m) = read_payload 256 b')' (advance_by 8 l) in
    if starts_with l "Def:anw("
    then emit tok_linref buf (if starts_with m "/Lin" then advance_by 4 m else m)
    else pass

-- The rest of the line, of which 127 bytes are read at most.
unfoldable pub lang_on : Bytes → Bytes → Lexer → Bytes × Lexer
lang_on [] buf l = (buf, l)
lang_on (_ ∷ fuel) buf l =
    let onward = lang_on fuel (buf ++ (cur l ∷ [])) (advance l) in
    if not (cur l == 0) && not (cur l == b'\n') && ltb (length buf) (128 - 1)
    then onward
    else (buf, l)

unfoldable pub lang_bind : Lexer → Action
lang_bind l =
    let m = advance_by 6 l in
    let (buf, m') = lang_on m.rest [] m in
    if starts_with l "/lang/" then emit tok_lang_bind buf m' else pass

unfoldable pub definition : Lexer → Action
definition l =
    fixed "Def:const" tok_def_const l
    <|> fixed "Def:config" tok_def_config l
    <|> linref l
    <|> lang_bind l

unfoldable pub command_word : ℕ → Lexer → Action
command_word c l =
    mode c l
    <|> fixed "ptr/" tok_ptr l
    <|> cor l
    <|> fixed "inq;" tok_inq l
    <|> fixed "snd:mes" tok_snd_mes l
    <|> fixed "Rec/:" tok_rec l
    <|> braced "Snd{" 3 tok_send l
    <|> braced "Bcast{" 5 tok_bcast l
