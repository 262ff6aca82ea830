-- ===== src/Lexer/Position/Tokens.antt =====
-- The loop of `lexer_tokenize`, src/lexer.c: its end, and where its tokens begin.
use lu_language.Prelude.{
  ℕ, zero, suc, ◌+◌, ◌≤◌, ◌<◌, Bytes, Bool, true, false, List, [], ◌∷◌, ◌++◌, length, length-append,
  take, drop_while, get_or, Option, some, ◌≡◌, refl, sym, ap, ◌∙◌, ◌⊎◌, inl, inr, Bool-cases, c_str,
  codes, arith,
}
use lu_language.Lexer.Action.{Action, pass, again, emit}
use lu_language.Lexer.Position.{Stands, line_behind, col_behind, Reaches-Stands, lexer_new-Stands}
use lu_language.Lexer.Reach.{Reaches, here, next, advance_end}
use lu_language.Lexer.Reach.Body.{Takes, body-Takes}
use lu_language.Lexer.Scan.{advance-rest, skip_spaces-rest, Reaches-skip_spaces}
use lu_language.Lexer.State.{Lexer, lexer_new, cur, advance, skip_spaces, is_space}
use lu_language.Lexer.Token.{Token, TokenType, tok_eof}
use lu_language.Lexer.Tokenizer.{
  make_tok, body, at_end, eof, is_nil, continue_with, tokenize_on, lexer_tokenize, tokenize,
}

-- The token `t` begins at offset `n` of `src`.
pub record BeginsAt (src : Bytes) (n : ℕ) (t : Token) : Type 0 where
  pub line : t.line ≡ line_behind (take n src)
  pub col : t.col ≡ col_behind (take n src)

-- Tokens at growing offsets from `from` on, each at a byte that is no blank, the last one the
-- end-of-file token, behind the last byte.
pub data Placed (src : Bytes) : ℕ → List Token → Type 0 where
  end :
      {from : ℕ} {t : Token}
      → t.type ≡ tok_eof
      → from ≤ length src
      → BeginsAt src (length src) t
      → Placed src from (t ∷ [])
  token :
      {from : ℕ} {t : Token} {ts : List Token} (n : ℕ)
      → from ≤ n
      → n < length src
      → is_space (get_or src n 0) ≡ false
      → BeginsAt src n t
      → Placed src (suc n) ts
      → Placed src from (t ∷ ts)

take-length-append : (xs ys : Bytes) → take (length xs) (xs ++ ys) ≡ xs
take-length-append [] ys = refl
take-length-append (x ∷ xs) ys = ap (◌∷◌ x) (take-length-append xs ys)

get_or-length-append : (xs ys : Bytes) (d : ℕ) → get_or (xs ++ ys) (length xs) d ≡ get_or ys 0 d
get_or-length-append [] ys d = refl
get_or-length-append (x ∷ xs) ys d = get_or-length-append xs ys d

drop_while-head :
    (p : ℕ → Bool) (xs : Bytes) (c : ℕ) (cs : Bytes) → drop_while p xs ≡ c ∷ cs → p c ≡ false
drop_while-head p [] c cs e = cc
drop_while-head p (x ∷ xs) c cs e = elim (Bool-cases (p x)) [
  | inl more ↦ drop_while-head p xs c cs (rw more at e)
  | inr done ↦ let same : x ∷ xs ≡ c ∷ cs = rw done at e in ap p (cc same) ∙ done
]

at_end-cases :
    (l : Lexer)
    → ((at_end l ≡ true) × (l.rest ≡ []))
      ⊎ ((at_end l ≡ false) × (c : ℕ) × (cs : Bytes) × (l.rest ≡ c ∷ cs))
unfolding at_end
at_end-cases l = go l.rest refl
  where
    go :
        (r : Bytes)
        → l.rest ≡ r
        → ((is_nil l.rest ≡ true) × (l.rest ≡ []))
          ⊎ ((is_nil l.rest ≡ false) × (c : ℕ) × (cs : Bytes) × (l.rest ≡ c ∷ cs))
    go [] e = inl (ap is_nil e, e)
    go (c ∷ cs) e = inr (ap is_nil e, c, cs, e)

advance-length : (l : Lexer) → length (advance l).rest ≤ length l.rest
advance-length l = elim (at_end-cases l) [
  | inl (t, e) ↦ rw (advance_end l e) (omega arith)
  | inr (f, c, cs, e) ↦ omega (arith, ap length e, ap length (advance-rest l e))
]

advance-length_cons :
    (l : Lexer) (c : ℕ) (cs : Bytes) → l.rest ≡ c ∷ cs → length (advance l).rest < length l.rest
advance-length_cons l c cs e = omega (arith, ap length e, ap length (advance-rest l e))

Reaches-length : {l m : Lexer} → Reaches l m → length m.rest ≤ length l.rest
Reaches-length here = omega arith
Reaches-length (next {l} {m} r) = omega (arith, advance-length l, Reaches-length r)

module _ (src : Bytes) where
  Stands-take : (l : Lexer) (s : Stands src l) → take l.pos src ≡ s.read
  Stands-take l s = rw (s.pos_is, s.splits) (take-length-append s.read l.rest)

  make_tok-BeginsAt :
      (t : TokenType) (v : Bytes) (l : Lexer)
      → Stands src l
      → BeginsAt src l.pos (make_tok t v l.line l.col)
  make_tok-BeginsAt t v l s = record {
    line = s.line_is ∙ ap line_behind (sym (Stands-take l s));
    col = s.col_is ∙ ap col_behind (sym (Stands-take l s));
  }

  Stands-length : (l : Lexer) → Stands src l → length src ≡ l.pos + length l.rest
  Stands-length l s = omega (arith, ap length s.splits, length-append s.read l.rest, s.pos_is)

  Stands-byte : (l : Lexer) → Stands src l → get_or src l.pos 0 ≡ get_or l.rest 0 0
  Stands-byte l s = rw (s.pos_is, s.splits) (get_or-length-append s.read l.rest 0)

  -- The tokens from `l` on, at offsets from `from`.
  abbrev Done : ℕ → Option (List Token) → Type 0
  Done from r = (ts : List Token) × (r ≡ some ts) × Placed src from ts

  eof-Placed :
      (from : ℕ) (l : Lexer) → Stands src l → l.rest ≡ [] → from ≤ l.pos → Placed src from (eof l)
  eof-Placed from l s e h =
      let whole : length src ≡ l.pos = omega (arith, Stands-length l s, ap length e) in
      end refl (omega arith) (rw whole (make_tok-BeginsAt tok_eof (codes "") l s))

  module _ (fuel : ℕ) where
    -- What the loop does on less fuel.
    abbrev Onward : Type 0
    Onward =
        (from : ℕ) (n : Lexer)
        → Stands src n
        → length n.rest < fuel
        → from ≤ n.pos
        → Done from (tokenize_on fuel n)

    module _ (onward : Onward) (from : ℕ) (m : Lexer) (s : Stands src m) (c : ℕ) (cs : Bytes)
        (here_is : m.rest ≡ c ∷ cs) (blank : is_space c ≡ false) (enough : length m.rest ≤ fuel)
        (behind : from ≤ m.pos) where
      later :
          (next_from : ℕ) (n : Lexer)
          → Reaches (advance m) n
          → next_from ≤ suc m.pos
          → Done next_from (tokenize_on fuel n)
      later next_from n r g =
          let stands = Reaches-Stands src (next r) s in
          let shorter = advance-length_cons m c cs here_is in
          let less = Reaches-length r in
          onward next_from n stands (omega arith)
            (omega (arith, Stands-length m s, Stands-length n stands))

      round-Done :
          (a : Action) → Takes m a → Done from (continue_with (λ n. tokenize_on fuel n) m a)
      round-Done pass r = absurd r
      round-Done (again n) r = later from n r (omega arith)
      round-Done (emit t v n) r =
          let (ts, run, placed) = later (suc m.pos) n r (omega arith) in
          let inside : m.pos < length src = omega (arith, Stands-length m s, ap length here_is) in
          let byte : get_or src m.pos 0 ≡ c = Stands-byte m s ∙ ap (λ b. get_or b 0 0) here_is in
          (
            make_tok t v m.line m.col ∷ ts,
            rw run,
            token m.pos behind inside (ap is_space byte ∙ blank) (make_tok-BeginsAt t v m s) placed,
          )

  tokenize_on-Done : (fuel : ℕ) → Onward fuel
  unfolding tokenize_on
  tokenize_on-Done zero from l s h g = absurd (omega arith)
  tokenize_on-Done (suc fuel) from l s h g =
      let m = skip_spaces l in
      let spaces = Reaches-skip_spaces l in
      let stands = Reaches-Stands src spaces s in
      let shorter = Reaches-length spaces in
      let later : from ≤ m.pos = omega (arith, Stands-length l s, Stands-length m stands) in
      elim (at_end-cases l) [
        | inl (t, e) ↦ (eof l, rw t, eof-Placed from l s e g)
        | inr (f, _, _, _) ↦ rw f (elim (at_end-cases m) [
          | inl (t, e) ↦ (eof m, rw t, eof-Placed from m stands e later)
          | inr (f', c, cs, e) ↦ rw f' (
              round-Done fuel (tokenize_on-Done fuel) from m stands c cs e
                (drop_while-head is_space l.rest c cs (sym (skip_spaces-rest l) ∙ e)) (omega arith)
                later (body (cur m) m) (body-Takes m))
        ])
      ]

-- `lexer_tokenize` ends on every source. Its tokens begin at growing offsets, none at a blank, and
-- each carries the line and the column of its first byte; the last is the end-of-file token.
pub tokenize-Placed :
    (src : Bytes) → (ts : List Token) × (tokenize src ≡ some ts) × Placed (c_str src) 0 ts
unfolding tokenize lexer_tokenize
tokenize-Placed src =
    tokenize_on-Done (c_str src) _ 0 (lexer_new src) (lexer_new-Stands src) (omega arith)
      (omega arith)
