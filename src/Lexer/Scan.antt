-- ===== src/Lexer/Scan.antt =====
-- What the loops over single bytes, `skip_spaces`, `skip_line` and `read_word` of src/lexer.c,
-- read and leave.
use lu_language.Prelude.{
  ℕ, suc, ◌+◌, ◌-◌, Bytes, Bool, true, [], ◌∷◌, length, take, take_while, drop_while, ◌≡◌, refl, ap,
  ◌∙◌, inl, inr, Bool-cases, arith,
}
use lu_language.Lexer.Reach.{Reaches, Reaches-skip_while}
use lu_language.Lexer.State.{
  skip_spaces, is_space, Lexer, cur, advance, advance_in, step_over, advance_on, advance_while,
  skip_while, text_between, read_word, is_word_byte,
}

pub advance_cons : (l : Lexer) {c : ℕ} {cs : Bytes} → l.rest ≡ c ∷ cs → advance l ≡ step_over c cs l
unfolding advance
advance_cons l e = ap (λ r. advance_in r l) e

pub advance-rest : (l : Lexer) {c : ℕ} {cs : Bytes} → l.rest ≡ c ∷ cs → (advance l).rest ≡ cs
advance-rest l {c} {cs} e = rw (advance_cons l e) (ground arith)

pub advance-pos : (l : Lexer) {c : ℕ} {cs : Bytes} → l.rest ≡ c ∷ cs → (advance l).pos ≡ l.pos + 1
advance-pos l {c} {cs} e = rw (advance_cons l e) (ground arith)

pub cur_cons : (l : Lexer) {c : ℕ} {cs : Bytes} → l.rest ≡ c ∷ cs → cur l ≡ c
unfolding cur
cur_cons l e = rw e

pub cur_nil : (l : Lexer) → l.rest ≡ [] → cur l ≡ 0
unfolding cur
cur_nil l e = rw e

module _ (p : ℕ → Bool) where
  -- What a loop of `advance` over the bytes of `p` has done to `l` when it ends in `m`.
  pub record Skipped (l m : Lexer) : Type 0 where
    pub left : m.rest ≡ drop_while p l.rest
    pub passed : m.pos ≡ l.pos + length (take_while p l.rest)

  Skipped-on :
      (fuel : Bytes) (l : Lexer) → l.rest ≡ fuel → Skipped l (advance_on (λ m. p (cur m)) fuel l)
  unfolding advance_on
  Skipped-on [] l e = record { left = rw e; passed = rw e (omega arith) }
  Skipped-on (c ∷ fuel) l e =
      let ih = Skipped-on fuel (advance l) (advance-rest l e) in
      let ahead = ap (λ r. length (take_while p r)) (advance-rest l e) in
      let taken : (p c ≡ true) → length (take_while p l.rest) ≡ suc (length (take_while p fuel)) =
        λ more. ap (λ r. length (take_while p r)) e ∙ rw more in
      let at : cur l ≡ c = cur_cons l e in
      elim (Bool-cases (p c)) [
        | inl more ↦
            rw (at, more)
              (record {
                left = ih.left ∙ rw (advance-rest l e, e, more);
                passed = omega (arith, ih.passed, advance-pos l e, ahead, taken more);
              })
        | inr done ↦
            rw (at, done) (record { left = rw (e, done); passed = rw (e, done) (omega arith) })
      ]

  pub skip_while_lem : (l : Lexer) → Skipped l (skip_while p l)
  unfolding skip_while advance_while
  skip_while_lem l = Skipped-on l.rest l refl

pub take-length-take_while :
    (p : ℕ → Bool) (xs : Bytes) → take (length (take_while p xs)) xs ≡ take_while p xs
take-length-take_while p [] = refl
take-length-take_while p (x ∷ xs) = elim (Bool-cases (p x)) [
  | inl more ↦ rw more (ap (◌∷◌ x) (take-length-take_while p xs))
  | inr done ↦ rw done
]

pub text_between-Skipped :
    (p : ℕ → Bool) (l m : Lexer) → Skipped p l m → text_between l m ≡ take_while p l.rest
unfolding text_between
text_between-Skipped p l m s =
    let width : m.pos - l.pos ≡ length (take_while p l.rest) = omega (arith, s.passed) in
    rw width (take-length-take_while p l.rest)

-- `read_word` takes the longest prefix of letters, digits, `_` and `.`, and leaves what follows it.
pub read_word_lem :
    (l : Lexer)
    → ((read_word l).0 ≡ take_while is_word_byte l.rest)
      × ((read_word l).1.rest ≡ drop_while is_word_byte l.rest)
unfolding read_word
read_word_lem l =
    let s = skip_while_lem is_word_byte l in (text_between-Skipped is_word_byte l _ s, s.left)

pub skip_spaces-rest : (l : Lexer) → (skip_spaces l).rest ≡ drop_while is_space l.rest
unfolding skip_spaces
skip_spaces-rest l = (skip_while_lem is_space l).left

pub Reaches-skip_spaces : (l : Lexer) → Reaches l (skip_spaces l)
unfolding skip_spaces
Reaches-skip_spaces l = Reaches-skip_while is_space l
