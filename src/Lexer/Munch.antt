-- ===== src/Lexer/Munch.antt =====
-- The operators of src/lexer.c and the text behind them.
use mathlib.Core.List.{Memᴰ}
use lu_language.Prelude.{
  All-Mem, ℕ, Bytes, ◌&&◌, ◌==◌, List, [], ◌∷◌, Option, none, some, All, get_or, if◌then◌else◌, ◌≡◌,
  refl, ap, inl, inr, Bool-cases,
}
use lu_language.Lexer.Action.{Action, pass, emit}
use lu_language.Lexer.State.{Lexer, peek, advance_by}
use lu_language.Lexer.Rules.Operators.{Op2, Op3, ops2, ops3, try_op2, try_op3, operator}

-- The first entry of a table that begins with two bytes, or with three.
abbrev find2 : List Op2 → ℕ → ℕ → Option Op2
find2 [] a b = none
find2 (o ∷ os) a b = if a == o.first && b == o.second then some o else find2 os a b

abbrev find3 : List Op3 → ℕ → ℕ → ℕ → Option Op3
find3 [] a b c = none
find3 (o ∷ os) a b c =
    if a == o.first && b == o.second && c == o.third then some o else find3 os a b c

abbrev emit2 : Option Op2 → Lexer → Action
emit2 none l = pass
emit2 (some o) l = emit o.type (o.first ∷ o.second ∷ []) (advance_by 2 l)

abbrev emit3 : Option Op3 → Lexer → Action
emit3 none l = pass
emit3 (some o) l = emit o.type (o.first ∷ o.second ∷ o.third ∷ []) (advance_by 3 l)

try_op2-find2 :
    (os : List Op2) (c : ℕ) (l : Lexer) → try_op2 os c l ≡ emit2 (find2 os c (peek l 1)) l
unfolding try_op2
try_op2-find2 [] c l = refl
try_op2-find2 (o ∷ os) c l = elim (Bool-cases (c == o.first && peek l 1 == o.second)) [
  | inl on ↦ rw on refl
  | inr off ↦ rw off (try_op2-find2 os c l)
]

try_op3-find3 :
    (os : List Op3) (c : ℕ) (l : Lexer)
    → try_op3 os c l ≡ emit3 (find3 os c (peek l 1) (peek l 2)) l
unfolding try_op3
try_op3-find3 [] c l = refl
try_op3-find3 (o ∷ os) c l =
    elim (Bool-cases (c == o.first && peek l 1 == o.second && peek l 2 == o.third)) [
      | inl on ↦ rw on refl
      | inr off ↦ rw off (try_op3-find3 os c l)
    ]

ops2-distinct : All (λ (o : Op2). find2 ops2 o.first o.second ≡ some o) ops2
unfolding ops2
ops2-distinct = (
  refl,
  (
    refl,
    (
      refl,
      (
        refl,
        (
          refl,
          (
            refl,
            (
              refl,
              (
                refl,
                (
                  refl,
                  (
                    refl,
                    (
                      refl,
                      (
                        refl,
                        (refl, (refl, (refl, (refl, (refl, (refl, (refl, (refl, (refl, tt))))))))),
                      ),
                    ),
                  ),
                ),
              ),
            ),
          ),
        ),
      ),
    ),
  ),
)

ops3-distinct : All (λ (o : Op3). find3 ops3 o.first o.second o.third ≡ some o) ops3
unfolding ops3
ops3-distinct = (refl, (refl, (refl, tt)))

two_bytes : (l : Lexer) (a b : ℕ) (r : Bytes) → l.rest ≡ a ∷ b ∷ r → peek l 1 ≡ b
unfolding peek
two_bytes l a b r e = ap (λ t. get_or t 1 0) e

third_byte : (l : Lexer) (a b c : ℕ) (r : Bytes) → l.rest ≡ a ∷ b ∷ c ∷ r → peek l 2 ≡ c
unfolding peek
third_byte l a b c r e = ap (λ t. get_or t 2 0) e

-- An operator of three bytes is read whatever follows it.
pub operator-ops3 :
    (o : Op3) (l : Lexer) (r : Bytes)
    → Memᴰ o ops3
    → l.rest ≡ o.first ∷ o.second ∷ o.third ∷ r
    → operator o.first l ≡ emit o.type (o.first ∷ o.second ∷ o.third ∷ []) (advance_by 3 l)
unfolding operator
operator-ops3 o l r m e =
    let found =
      All-Mem (λ (o : Op3). find3 ops3 o.first o.second o.third ≡ some o) o ops3 ops3-distinct m in
    let b = two_bytes l o.first o.second (o.third ∷ r) e in
    let c = third_byte l o.first o.second o.third r e in
    rw (try_op3-find3 ops3 o.first l, b, c, found) refl

-- An operator of two bytes is read unless it begins one of three.
pub operator-ops2 :
    (o : Op2) (l : Lexer) (r : Bytes)
    → Memᴰ o ops2
    → l.rest ≡ o.first ∷ o.second ∷ r
    → find3 ops3 o.first o.second (get_or r 0 0) ≡ none
    → operator o.first l ≡ emit o.type (o.first ∷ o.second ∷ []) (advance_by 2 l)
unfolding operator peek
operator-ops2 o l r m e alone =
    let found =
      All-Mem (λ (o : Op2). find2 ops2 o.first o.second ≡ some o) o ops2 ops2-distinct m in
    let b = two_bytes l o.first o.second r e in
    let c : peek l 2 ≡ get_or r 0 0 = ap (λ t. get_or t 2 0) e in
    rw (try_op3-find3 ops3 o.first l, b, c, alone, try_op2-find2 ops2 o.first l, b, found) refl
