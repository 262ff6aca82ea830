-- ===== src/Parser/Total/States.antt =====
-- States of the parser of src/parser.c that end with the end of the file and hold no `fn`, and runs
-- that end within a number of tokens.
use lu_language.Prelude.{
  ℕ, suc, ◌≤◌, ◌<◌, Bytes, Bool, true, false, ◌&&◌, List, [], ◌∷◌, Option, some, ◌≡◌, refl, arith,
  length, streq, codes, Bool-cases, inl, inr, if◌then◌else◌,
}
use Prim.Native.Nat.{pred}
use lu_language.Lexer.Token.{Token, TokenType, tok_ident, tok_eof, tok_newline}
use lu_language.Parser.Cursor.{
  Parser, ◌>>=◌, cur_kind, same_kind, check, consume, match_tok, skip_newlines, skip_from, expect,
}
use lu_language.Parser.Fuel.{Ends, Ends-some, Ends-eq, Ends-suc, Ends-bind}

abbrev pub is_fn : TokenType → Bytes → Bool
is_fn k v = same_kind k tok_ident && streq v (codes "fn")

abbrev IsFileFrom : Token → List Token → Type 0
IsFileFrom t [] = t.type ≡ tok_eof
IsFileFrom t (u ∷ us) = (is_fn t.type t.value ≡ false) × IsFileFrom u us

-- The tokens end with the end of the file, and none is the word `fn`.
abbrev pub IsFile : Parser → Type 0
IsFile p = IsFileFrom p.token p.later

abbrev pub size : Parser → ℕ
size p = length p.later

-- How many tokens are left at most when one is passed.
abbrev pub after : Parser → ℕ
after p = if check tok_eof p then size p else pred (size p)

eof_kind : (k : TokenType) → same_kind k tok_eof ≡ true → k ≡ tok_eof
eof_kind tok_eof h = refl
eof_kind _ h = cc

pub check-eof : (p : Parser) → check tok_eof p ≡ true → cur_kind p ≡ tok_eof
check-eof p h = eof_kind (cur_kind p) h

pub consume-IsFile : (p : Parser) → IsFile p → IsFile (consume p)
consume-IsFile p f = go p.token p.later f
  where
    go :
        (t : Token) (ts : List Token)
        → IsFileFrom t ts
        → IsFile (consume (record { token = t; later = ts; errors = p.errors }))
    go t [] f = f
    go t (u ∷ us) f = f.1

pub size-consume : (p : Parser) → IsFile p → size (consume p) ≤ after p
size-consume p f = go p.token p.later f
  where
    go :
        (t : Token) (ts : List Token)
        → IsFileFrom t ts
        → let q : Parser = record { token = t; later = ts; errors = p.errors } in
          size (consume q) ≤ after q
    go t [] f = ground arith
    go t (u ∷ us) f = ground arith

pub after_le : (p : Parser) → after p ≤ size p
after_le p = ground arith

pub after_lt : (p : Parser) → IsFile p → check tok_eof p ≡ false → after p < size p
after_lt p f h = go p.token p.later f h
  where
    go :
        (t : Token) (ts : List Token)
        → IsFileFrom t ts
        → same_kind t.type tok_eof ≡ false
        → let q : Parser = record { token = t; later = ts; errors = p.errors } in after q < size q
    go t [] f h = absurd (cc)
    go t (u ∷ us) f h = ground arith

pub match_tok-IsFile : (k : TokenType) (p : Parser) → IsFile p → IsFile (match_tok k p)
unfolding match_tok
match_tok-IsFile k p f = elim (check k p) as (λ b. IsFile (if b then consume p else p)) [
  | true ↦ consume-IsFile p f
  | false ↦ f
]

pub size-match_tok : (k : TokenType) (p : Parser) → IsFile p → size (match_tok k p) ≤ size p
unfolding match_tok
size-match_tok k p f =
    let a = size-consume p f in
    let b = after_le p in
    elim (check k p) as (λ b. size (if b then consume p else p) ≤ size p) [
      | true ↦ omega arith
      | false ↦ omega arith
    ]

pub expect-IsFile : (k : TokenType) (p : Parser) → IsFile p → IsFile (expect k p)
unfolding expect
expect-IsFile k p f = elim (Bool-cases (check k p)) [
  | inl e ↦ rw e (consume-IsFile p f)
  | inr e ↦ rw e f
]

pub size-expect : (k : TokenType) (p : Parser) → IsFile p → size (expect k p) ≤ size p
unfolding expect
size-expect k p f =
    let a = size-consume p f in
    let b = after_le p in
    elim (Bool-cases (check k p)) [ inl e ↦ rw e (omega arith) | inr e ↦ rw e (omega arith) ]

skip_from-IsFile :
    (t : Token) (ts : List Token) (errors : ℕ) → IsFileFrom t ts → IsFile (skip_from t ts errors)
unfolding skip_from
skip_from-IsFile t [] errors f = f
skip_from-IsFile t (u ∷ us) errors f = elim (Bool-cases (same_kind t.type tok_newline)) [
  | inl e ↦ rw e (skip_from-IsFile u us errors f.1)
  | inr e ↦ rw e f
]

pub skip_newlines-IsFile : (p : Parser) → IsFile p → IsFile (skip_newlines p)
unfolding skip_newlines
skip_newlines-IsFile p f = skip_from-IsFile p.token p.later p.errors f

newline_eof : (k : TokenType) → same_kind k tok_newline ≡ true → same_kind k tok_eof ≡ false
newline_eof tok_newline h = refl
newline_eof _ h = cc

after-skip_from :
    (t : Token) (ts : List Token) (errors : ℕ)
    → IsFileFrom t ts
    → after (skip_from t ts errors) ≤ after (record { token = t; later = ts; errors = errors })
unfolding skip_from
after-skip_from t [] errors f = omega arith
after-skip_from t (u ∷ us) errors f = elim (Bool-cases (same_kind t.type tok_newline)) [
  | inl e ↦
      let ih = after-skip_from u us errors f.1 in
      let le = after_le (record { token = u; later = us; errors = errors }) in
      rw (e, newline_eof t.type e) (omega (arith, ih, le))
  | inr e ↦ rw e (omega arith)
]

size-skip_from :
    (t : Token) (ts : List Token) (errors : ℕ) → size (skip_from t ts errors) ≤ length ts
unfolding skip_from
size-skip_from t [] errors = omega arith
size-skip_from t (u ∷ us) errors = elim (Bool-cases (same_kind t.type tok_newline)) [
  | inl e ↦ let ih = size-skip_from u us errors in rw e (omega arith)
  | inr e ↦ rw e (omega arith)
]

pub size-skip_newlines : (p : Parser) → size (skip_newlines p) ≤ size p
unfolding skip_newlines
size-skip_newlines p = size-skip_from p.token p.later p.errors

pub after-skip_newlines : (p : Parser) → IsFile p → after (skip_newlines p) ≤ after p
unfolding skip_newlines
after-skip_newlines p f = after-skip_from p.token p.later p.errors f

module _ {ℓ} {A : Type ℓ} where
  -- A run that ends, in a file, with at most `n` tokens left.
  abbrev pub Within : (ℕ → Option (A × Parser)) → ℕ → Type ℓ
  Within f n = (r : A × Parser) × (Ends f r × (IsFile r.1 × (size r.1 ≤ n)))

  pub Within-some :
      (a : A) (q : Parser) (n : ℕ) → IsFile q → size q ≤ n → Within (λ k. some (a, q)) n
  Within-some a q n f h = ((a, q), (Ends-some (a, q), (f, h)))

  pub Within_le : (f : ℕ → Option (A × Parser)) (m n : ℕ) → m ≤ n → Within f m → Within f n
  Within_le f m n h w = (w.0, (w.1.0, (w.1.1.0, omega arith)))

  pub Within-suc :
      (f g : ℕ → Option (A × Parser)) (n : ℕ)
      → ((k : ℕ) → f (suc k) ≡ g k)
      → Within g n
      → Within f n
  Within-suc f g n same w = (w.0, (Ends-suc f g w.0 same w.1.0, w.1.1))

  pub Within-eq :
      (f g : ℕ → Option (A × Parser)) (n : ℕ) → ((k : ℕ) → f k ≡ g k) → Within g n → Within f n
  Within-eq f g n same w = (w.0, (Ends-eq f g w.0 same w.1.0, w.1.1))

module _ {ℓ κ} {A : Type ℓ} {B : Type κ} where
  pub Within-bind :
      (f : ℕ → Option (A × Parser)) (g : ℕ → A × Parser → Option (B × Parser)) (m n : ℕ)
      → Within f m
      → ((a : A) (q : Parser) → IsFile q → size q ≤ m → Within (λ k. g k (a, q)) n)
      → Within (λ k. f k >>= g k) n
  Within-bind f g m n w onward =
      let v = onward w.0.0 w.0.1 w.1.1.0 w.1.1.1 in
      (v.0, (Ends-bind f g w.0 v.0 w.1.0 v.1.0, v.1.1))
