-- ===== src/Lexer/Reach.antt =====
-- Sequences of `advance`: what the helpers of src/lexer.c have in common.
pub mod Readers
pub mod Rules
pub mod Names
pub mod Body
use lu_language.Prelude.{
  ℕ, zero, suc, Bytes, Bool, true, false, [], ◌∷◌, ◌≡◌, refl, sym, ap, inl, inr, Bool-cases,
  if◌then◌else◌, ◌==◌, arith,
}
use lu_language.Lexer.Action.{Action, pass, again, emit, ◌<|>◌}
use lu_language.Lexer.State.{
  Lexer, cur, advance, advance_in, advance_by, advance_on, advance_while, skip_while, skip_byte,
}

-- `m` is `l` after some calls of `advance`.
pub data Reaches : Lexer → Lexer → Type 0 where
  here : {l : Lexer} → Reaches l l
  next : {l m : Lexer} → Reaches (advance l) m → Reaches l m

pub Reaches-trans : {l m n : Lexer} → Reaches l m → Reaches m n → Reaches l n
Reaches-trans here q = q
Reaches-trans (next p) q = next (Reaches-trans p q)

pub Reaches-advance : {l m : Lexer} → Reaches l m → Reaches l (advance m)
Reaches-advance p = Reaches-trans p (next here)

pub Reaches-advance_by : (n : ℕ) (l : Lexer) → Reaches l (advance_by n l)
unfolding advance_by
Reaches-advance_by zero l = here
Reaches-advance_by (suc n) l = next (Reaches-advance_by n (advance l))

pub Reaches-advance_on :
    (test : Lexer → Bool) (fuel : Bytes) (l : Lexer) → Reaches l (advance_on test fuel l)
unfolding advance_on
Reaches-advance_on test [] l = here
Reaches-advance_on test (_ ∷ fuel) l = elim (Bool-cases (test l)) [
  | inl more ↦ rw more (next (Reaches-advance_on test fuel (advance l)))
  | inr done ↦ rw done here
]

pub Reaches-advance_while : (test : Lexer → Bool) (l : Lexer) → Reaches l (advance_while test l)
unfolding advance_while
Reaches-advance_while test l = Reaches-advance_on test l.rest l

pub Reaches-skip_while : (p : ℕ → Bool) (l : Lexer) → Reaches l (skip_while p l)
unfolding skip_while
Reaches-skip_while p l = Reaches-advance_while _ l

-- Either branch of a test moves on.
pub Reaches-if :
    {l : Lexer} (t : Bool) (m n : Lexer)
    → Reaches l m
    → Reaches l n
    → Reaches l (if t then m else n)
Reaches-if true m n p q = p
Reaches-if false m n p q = q

pub Reaches-skip_byte : (stop : ℕ) (l : Lexer) → Reaches l (skip_byte stop l)
unfolding skip_byte
Reaches-skip_byte stop l = Reaches-if (cur l == stop) _ _ (next here) here

-- At the end of the source `advance` stands still.
pub advance_end : (l : Lexer) → l.rest ≡ [] → advance l ≡ l
unfolding advance
advance_end l e = ap (λ r. advance_in r l) e

-- A loop whose test holds at first passes a byte, if there is one.
pub skip_while-progress :
    (p : ℕ → Bool) (l : Lexer) → p (cur l) ≡ true → Reaches (advance l) (skip_while p l)
unfolding skip_while advance_while
skip_while-progress p l h = go l.rest refl
  where
    go : (fuel : Bytes) → l.rest ≡ fuel → Reaches (advance l) (advance_on (λ m. p (cur m)) fuel l)
    go [] e = unfold advance_on in rw (advance_end l e) here
    go (_ ∷ fuel) e = unfold advance_on in rw h (Reaches-advance_on _ fuel (advance l))

-- What an action has passed, at the least: one byte.
abbrev pub Moves : Lexer → Action → Type 0
Moves l pass = Unit
Moves l (again m) = Reaches (advance l) m
Moves l (emit t v m) = Reaches (advance l) m

pub Moves-or : (l : Lexer) (a b : Action) → Moves l a → Moves l b → Moves l (a <|> b)
Moves-or l pass b p q = q
Moves-or l (again m) b p q = p
Moves-or l (emit t v m) b p q = p

pub Moves-if :
    (l : Lexer) (t : Bool) (a b : Action)
    → (t ≡ true → Moves l a)
    → Moves l b
    → Moves l (if t then a else b)
Moves-if l true a b p q = p refl
Moves-if l false a b p q = q
