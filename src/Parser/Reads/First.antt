-- ===== src/Parser/Reads/First.antt =====
-- The first two tokens of a phrase, by which the expression parser of src/parser.c tells `not` and a
-- cast.
use lu_language.Prelude.{
  zero, ◌≤◌, Bytes, Bool, true, false, ◌&&◌, ◌||◌, ◌≡◌, refl, streq, codes, arith, ap, Bool-cases,
  streq_iff, inl, inr,
}
use lu_language.Lexer.Token.{
  Token, TokenType, tok_ident, tok_lparen, tok_rparen, tok_rbracket, tok_eof, tok_newline,
}
use lu_language.Parser.Cursor.{Parser, cur_kind, same_kind, peek_tok}
use lu_language.Parser.Types.{is_type_tok}
use lu_language.Parser.Forms.{form_of, group_form}
use lu_language.Parser.Expr.{is_not}
use lu_language.Parser.Phrase.{
  Phrase, Prefix, written, push, level, IsValid, is_word, is_name, is_one_word, single, name, group,
  list, prefix, call, field, index, slice, post, negation, binary, ternary, minus, bang, tilde, inc,
  dec, star, amp, deref, ref, prefix_kind,
}
use lu_language.Parser.Reads.Tokens.{operator-rparen, operator_bounds}

not_word :
    (k : TokenType) (v : Bytes)
    → is_word k v ≡ true
    → (same_kind k tok_ident && streq v (codes "not")) ≡ false
unfolding streq
not_word tok_ident v h = elim (Bool-cases (streq v (codes "not"))) [
  | inl e ↦ absurd (cc (h, ap (is_word tok_ident) ((streq_iff v (codes "not")).0 e)))
  | inr e ↦ e
]
not_word _ v h = refl

not_name :
    (k : TokenType) (v : Bytes)
    → is_name k v ≡ true
    → (same_kind k tok_ident && streq v (codes "not")) ≡ false
not_name tok_ident v h = ground arith
not_name _ v h = refl

-- A token at which no phrase begins.
abbrev pub is_closer : TokenType → Bool
is_closer k =
    same_kind k tok_rparen
    || same_kind k tok_rbracket
    || same_kind k tok_eof
    || same_kind k tok_newline

prefix-is_not : (s : Prefix) → same_kind (prefix_kind s) tok_ident ≡ false
prefix-is_not minus = refl
prefix-is_not bang = refl
prefix-is_not tilde = refl
prefix-is_not inc = refl
prefix-is_not dec = refl
prefix-is_not star = refl
prefix-is_not amp = refl
prefix-is_not deref = refl
prefix-is_not ref = refl

prefix-is_type_tok : (s : Prefix) → is_type_tok (prefix_kind s) ≡ false
prefix-is_type_tok minus = refl
prefix-is_type_tok bang = refl
prefix-is_type_tok tilde = refl
prefix-is_type_tok inc = refl
prefix-is_type_tok dec = refl
prefix-is_type_tok star = refl
prefix-is_type_tok amp = refl
prefix-is_type_tok deref = refl
prefix-is_type_tok ref = refl

prefix-is_closer : (s : Prefix) → is_closer (prefix_kind s) ≡ false
prefix-is_closer minus = refl
prefix-is_closer bang = refl
prefix-is_closer tilde = refl
prefix-is_closer inc = refl
prefix-is_closer dec = refl
prefix-is_closer star = refl
prefix-is_closer amp = refl
prefix-is_closer deref = refl
prefix-is_closer ref = refl

-- A phrase that holds more tightly than `not` does not begin with it.
pub written-is_not :
    (e : Phrase) (p : Parser) → IsValid e → 14 ≤ level e → is_not (written e p) ≡ false
unfolding written level IsValid
written-is_not (single t) p v h = not_word t.type t.value v
written-is_not (name t) p v h = not_name t.type t.value v
written-is_not (group a b e) p v h = refl
written-is_not (list a b es) p v h = refl
written-is_not (prefix s t e) p v h = rw (prefix-is_not s)
written-is_not (call t a b es) p v h = not_name t.type t.value v.0
written-is_not (field arrow d n e) p v h = written-is_not e _ v.0 (omega arith)
written-is_not (index a b e i) p v h = written-is_not e _ v.0.0 (omega arith)
written-is_not (slice a c b e i j) p v h = written-is_not e _ v.0.0 (omega arith)
written-is_not (post down t e) p v h = written-is_not e _ v.0 (omega arith)
written-is_not (negation t e) p v h = absurd (omega arith)
written-is_not (binary t prec op l r) p v h =
    let b = operator_bounds t.type t.value (prec, op) v.0 in absurd (omega arith)
written-is_not (ternary t u c a b) p v h = absurd (omega arith)

-- A word that could name a type, and a closing parenthesis.
abbrev casts : Parser → Bool
casts p = is_type_tok (cur_kind p) && same_kind (peek_tok zero p).type tok_rparen

single-is_closer : (k : TokenType) (v : Bytes) → is_word k v ≡ true → is_closer k ≡ false
single-is_closer tok_rparen v h = cc
single-is_closer tok_rbracket v h = cc
single-is_closer tok_eof v h = cc
single-is_closer tok_newline v h = cc
single-is_closer _ v h = refl

name-is_closer : (k : TokenType) (v : Bytes) → is_name k v ≡ true → is_closer k ≡ false
name-is_closer tok_rparen v h = cc
name-is_closer tok_rbracket v h = cc
name-is_closer tok_eof v h = cc
name-is_closer tok_newline v h = cc
name-is_closer _ v h = refl

pub written-is_closer :
    (e : Phrase) (p : Parser) → IsValid e → is_closer (cur_kind (written e p)) ≡ false
unfolding written IsValid
written-is_closer (single t) p v = single-is_closer t.type t.value v
written-is_closer (name t) p v = name-is_closer t.type t.value v
written-is_closer (group a b e) p v = refl
written-is_closer (list a b es) p v = refl
written-is_closer (prefix s t e) p v = prefix-is_closer s
written-is_closer (call t a b es) p v = name-is_closer t.type t.value v.0
written-is_closer (field arrow d n e) p v = written-is_closer e _ v.0
written-is_closer (index a b e i) p v = written-is_closer e _ v.0.0
written-is_closer (slice a c b e i j) p v = written-is_closer e _ v.0.0
written-is_closer (post down t e) p v = written-is_closer e _ v.0
written-is_closer (negation t e) p v = refl
written-is_closer (binary t prec op l r) p v = written-is_closer l _ v.1.0.0
written-is_closer (ternary t u c a b) p v = written-is_closer c _ v.0.0

pub written-rparen :
    (e : Phrase) (p : Parser) → IsValid e → same_kind (cur_kind (written e p)) tok_rparen ≡ false
written-rparen e p v = let c = written-is_closer e p v in grind arith

written-casts :
    (e : Phrase) (p : Parser)
    → IsValid e
    → (same_kind (cur_kind p) tok_rparen ≡ true → is_one_word e ≡ false)
    → casts (written e p) ≡ false
unfolding written peek_tok IsValid
written-casts (single t) p v h = ground arith
written-casts (name t) p v h = ground arith
written-casts (group a b e) p v h = refl
written-casts (list a b es) p v h = refl
written-casts (prefix s t e) p v h = rw (prefix-is_type_tok s)
written-casts (call t a b es) p v h = ground arith
written-casts (field true d n e) p v h = written-casts e _ v.0 (λ k. cc)
written-casts (field false d n e) p v h = written-casts e _ v.0 (λ k. cc)
written-casts (index a b e i) p v h = written-casts e _ v.0.0 (λ k. cc)
written-casts (slice a c b e i j) p v h = written-casts e _ v.0.0 (λ k. cc)
written-casts (post true t e) p v h = written-casts e _ v.0 (λ k. cc)
written-casts (post false t e) p v h = written-casts e _ v.0 (λ k. cc)
written-casts (negation t e) p v h = written-rparen e p v.0
written-casts (binary t prec op l r) p v h =
    let r = operator-rparen t.type t.value (prec, op) v.0 in written-casts l _ v.1.0.0 (λ k. cc)
written-casts (ternary t u c a b) p v h = written-casts c _ v.0.0 (λ k. cc)

-- A parenthesis before a phrase that is no single word opens a group.
pub form_of-group :
    (a : Token) (e : Phrase) (p : Parser)
    → IsValid e
    → is_one_word e ≡ false
    → form_of tok_lparen (push a (written e p)) ≡ group_form
unfolding form_of peek_tok
form_of-group a e p v h = rw (written-casts e p v (λ k. h))
