-- ===== src/Lexer/Reach/Names.antt =====
-- The rules for fixed texts, commands and words, src/lexer.c, and the bytes that they pass.
use lu_language.Prelude.{
  ℕ, zero, suc, ◌-◌, ◌<◌, Bytes, not, ◌&&◌, ◌||◌, List, [], ◌∷◌, length, ltb, ◌==◌, isalpha,
  isalnum, String, codes, arith,
}
use lu_language.Lexer.Reach.{
  Reaches, here, next, Reaches-trans, Reaches-advance_by, Reaches-if, Moves, Moves-if, Moves-or,
}
use lu_language.Lexer.Reach.Readers.{
  Behind, Behind-if, read_payload-Behind, read_brace_payload-Behind, read_cor-Behind,
  read_word-progress,
}
use lu_language.Lexer.Reach.Rules.{At}
use lu_language.Lexer.Rules.Commands.{
  command, game_command, distance, mode, cor, braced, linref, lang_on, lang_bind, definition,
  command_word,
}
use lu_language.Lexer.Rules.Keywords.{
  fixed, slash_keywords, try_fixed, lang_decl, slash_keyword, word,
}
use lu_language.Lexer.State.{Lexer, cur, peek, advance, advance_by, starts_with, is_word_byte}
use lu_language.Lexer.Token.{TokenType}
use lu_language.Lexer.Tokenizer.{named}

-- To pass one byte at least is to pass the first.
Reaches-advance_pos : (n : ℕ) (l : Lexer) → 0 < n → Reaches (advance l) (advance_by n l)
unfolding advance_by
Reaches-advance_pos zero l h = absurd (omega arith)
Reaches-advance_pos (suc n) l h = Reaches-advance_by n (advance l)

-- A text of one byte at least.
fixed-Moves :
    (s : String) (t : TokenType) (l : Lexer) → 0 < length (codes s) → Moves l (fixed s t l)
unfolding fixed
fixed-Moves s t l h =
    Moves-if l (starts_with l s) _ _ (λ _. Reaches-advance_pos (length (codes s)) l h) tt

abbrev NoneEmpty : List (String × TokenType) → Type 0
NoneEmpty [] = Unit
NoneEmpty ((s, t) ∷ more) = (0 < length (codes s)) × NoneEmpty more

try_fixed-Moves :
    (ks : List (String × TokenType)) (l : Lexer) → NoneEmpty ks → Moves l (try_fixed ks l)
unfolding try_fixed
try_fixed-Moves [] l h = tt
try_fixed-Moves ((s, t) ∷ more) l (h, hs) =
    Moves-or l _ _ (fixed-Moves s t l h) (try_fixed-Moves more l hs)

slash_keywords-NoneEmpty : NoneEmpty slash_keywords
unfolding slash_keywords
slash_keywords-NoneEmpty = omega arith

slash_keyword-Moves : (l : Lexer) → Moves l (slash_keyword l)
unfolding slash_keyword
slash_keyword-Moves l =
    Moves-or l _ _ (try_fixed-Moves slash_keywords l slash_keywords-NoneEmpty)
      (Moves-or l _ _ (fixed-Moves "Fn/" _ l (omega arith)) (fixed-Moves "Call/" _ l (omega arith)))

lang_decl-Moves : (c : ℕ) (l : Lexer) → Moves l (lang_decl c l)
unfolding lang_decl
lang_decl-Moves c l =
    Moves-if l (c == b'L') _ _ (λ _. fixed-Moves "Lu/Language" _ l (omega arith)) tt

command-Moves :
    (s : String) (t : TokenType) (l : Lexer) → 0 < length (codes s) → Moves l (command s t l)
unfolding command
command-Moves s t l h =
    Moves-if l (starts_with l s) _ _
      (λ _.
        Reaches-trans (Reaches-advance_pos (length (codes s)) l h) (read_payload-Behind 128 b')' _))
      tt

game_command-Moves : (l : Lexer) → Moves l (game_command l)
unfolding game_command
game_command-Moves l = Moves-or l _ _ (command-Moves "cr(" _ l (omega arith)) (
    Moves-or l _ _ (command-Moves "dam(" _ l (omega arith)) (
      Moves-or l _ _ (command-Moves "onl(" _ l (omega arith))
        (command-Moves "func(" _ l (omega arith))))

distance-Moves : (l : Lexer) → Moves l (distance l)
unfolding distance
distance-Moves l =
    Moves-if l
      (starts_with l "distance" && not (isalnum (peek l 8) || peek l 8 == b'_' || peek l 8 == b'.'))
      _ _ (λ _. Reaches-advance_pos 8 l (omega arith)) tt

mode-Moves : (c : ℕ) (l : Lexer) → Moves l (mode c l)
unfolding mode
mode-Moves c l =
    Moves-if l (c == b'M' && peek l 1 == b'/') _ _ (λ _. Reaches-advance_pos 2 l (omega arith)) tt

cor-Moves : (l : Lexer) → Moves l (cor l)
unfolding cor
cor-Moves l =
    let four = Reaches-advance_pos 4 l (omega arith) in
    Moves-if l (starts_with l "cor/") _ _
      (λ _.
        Moves-if l (cur (advance_by 4 l) == b'{') _ _
          (λ _. Reaches-trans four (next (read_cor-Behind (advance_by 4 l)))) four)
      tt

braced-Moves :
    (s : String) (width : ℕ) (t : TokenType) (l : Lexer) → 0 < width → Moves l (braced s width t l)
unfolding braced
braced-Moves s width t l h =
    Moves-if l (starts_with l s) _ _
      (λ _. Reaches-trans (Reaches-advance_pos width l h) (next (read_brace_payload-Behind _))) tt

command_word-Moves : (c : ℕ) (l : Lexer) → Moves l (command_word c l)
unfolding command_word
command_word-Moves c l = Moves-or l _ _ (mode-Moves c l) (
    Moves-or l _ _ (fixed-Moves "ptr/" _ l (omega arith)) (
      Moves-or l _ _ (cor-Moves l) (
        Moves-or l _ _ (fixed-Moves "inq;" _ l (omega arith)) (
          Moves-or l _ _ (fixed-Moves "snd:mes" _ l (omega arith)) (
            Moves-or l _ _ (fixed-Moves "Rec/:" _ l (omega arith)) (
              Moves-or l _ _ (braced-Moves "Snd{" 3 _ l (omega arith))
                (braced-Moves "Bcast{" 5 _ l (omega arith))))))))

linref-Moves : (l : Lexer) → Moves l (linref l)
unfolding linref
linref-Moves l =
    Moves-if l (starts_with l "Def:anw(") _ _
      (λ _.
        Reaches-trans
          (Reaches-trans (Reaches-advance_pos 8 l (omega arith)) (read_payload-Behind 256 b')' _))
          (Reaches-if (starts_with _ "/Lin") _ _ (Reaches-advance_by 4 _) here))
      tt

lang_on-Behind : (fuel buf : Bytes) (l : Lexer) → Behind l (lang_on fuel buf l)
unfolding lang_on
lang_on-Behind [] buf l = here
lang_on-Behind (_ ∷ fuel) buf l =
    Behind-if (not (cur l == 0) && not (cur l == b'\n') && ltb (length buf) (128 - 1)) _ _
      (next (lang_on-Behind fuel _ (advance l))) (λ _. here)

lang_bind-Moves : (l : Lexer) → Moves l (lang_bind l)
unfolding lang_bind
lang_bind-Moves l =
    Moves-if l (starts_with l "/lang/") _ _
      (λ _. Reaches-trans (Reaches-advance_pos 6 l (omega arith)) (lang_on-Behind _ [] _)) tt

definition-Moves : (l : Lexer) → Moves l (definition l)
unfolding definition
definition-Moves l = Moves-or l _ _ (fixed-Moves "Def:const" _ l (omega arith)) (
    Moves-or l _ _ (fixed-Moves "Def:config" _ l (omega arith))
      (Moves-or l _ _ (linref-Moves l) (lang_bind-Moves l)))

word-Moves : (c : ℕ) (l : Lexer) → At c l → Moves l (word c l)
unfolding word
word-Moves c l at =
    Moves-if l (isalpha c || c == b'_') _ _
      (λ h. read_word-progress l (unfold is_word_byte isalnum isalpha in ground arith)) tt

pub named-Moves : (c : ℕ) (l : Lexer) → At c l → Moves l (named c l)
unfolding named
named-Moves c l at = Moves-or l _ _ (lang_decl-Moves c l) (
    Moves-or l _ _ (slash_keyword-Moves l) (
      Moves-or l _ _ (game_command-Moves l) (
        Moves-or l _ _ (distance-Moves l) (
          Moves-or l _ _ (command_word-Moves c l)
            (Moves-or l _ _ (definition-Moves l) (word-Moves c l at))))))
