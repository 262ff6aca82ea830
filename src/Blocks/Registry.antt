-- ===== src/Blocks/Registry.antt =====
-- The shape of the registry of src/util.c, and what its lookups find after a step.
use lu_language.Prelude.{
  ℕ, suc, ◌+◌, ◌≤◌, ℤ, int_eq, int_eq_iff, int_eq_comm, true, false, List, [], ◌∷◌, ◌++◌, Option,
  none, some, length, length-append, leb, ◌≡◌, refl, ap, ◌∙◌, inl, inr, Bool-cases, if◌then◌else◌,
  arith,
}
use lu_language.Blocks.{
  BlockInfo, find_from, breg_find, new_block, add_block, or_add, breg_get_or_create,
}

-- No number stands behind itself.
abbrev pub Numbered : List BlockInfo → Type 0
Numbered [] = Unit
Numbered (b ∷ bs) = (find_from bs 0 b.block_n ≡ none) × Numbered bs

pub record IsValid (br : List BlockInfo) : Type 0 where
  pub numbered : Numbered br
  pub bounded : length br ≤ 512

find_from-none :
    (br : List BlockInfo) (i j : ℕ) (n : ℤ) → find_from br i n ≡ none → find_from br j n ≡ none
unfolding find_from
find_from-none [] i j n h = refl
find_from-none (b ∷ bs) i j n h = ground (arith, find_from-none bs (suc i) (suc j) n)

find_from-append-none :
    (br more : List BlockInfo) (i : ℕ) (n : ℤ)
    → find_from br i n ≡ none
    → find_from (br ++ more) i n ≡ find_from more (i + length br) n
unfolding find_from
find_from-append-none [] more i n h = ap (λ k. find_from more k n) (omega arith)
find_from-append-none (b ∷ bs) more i n h =
    let moved : (suc i + length bs) ≡ (i + length (b ∷ bs)) = omega arith in
    let rest = find_from-append-none bs more (suc i) n in
    let at : find_from more (suc i + length bs) n ≡ find_from more (i + length (b ∷ bs)) n =
      ap (λ k. find_from more k n) moved in
    ground arith

find_from-append-some :
    (br more : List BlockInfo) (i : ℕ) (n : ℤ) (k : ℕ)
    → find_from br i n ≡ some k
    → find_from (br ++ more) i n ≡ some k
unfolding find_from
find_from-append-some [] more i n k h = cc
find_from-append-some (b ∷ bs) more i n k h =
    ground (arith, find_from-append-some bs more (suc i) n k)

find_from-new :
    (i : ℕ) (n m : ℤ) → find_from (new_block n ∷ []) i m ≡ (if int_eq n m then some i else none)
unfolding find_from
find_from-new i n m = refl

Numbered-append :
    (br : List BlockInfo) (n : ℤ)
    → find_from br 0 n ≡ none
    → Numbered br
    → Numbered (br ++ (new_block n ∷ []))
unfolding find_from
Numbered-append [] n h v = (refl, tt)
Numbered-append (b ∷ bs) n h v =
    let apart : int_eq b.block_n n ≡ false = ground arith in
    let behind = find_from-none bs 1 0 n (ground arith) in
    let turned = int_eq_comm n b.block_n ∙ apart in
    let alone = find_from-append-none bs (new_block n ∷ []) 0 b.block_n v.0 in
    (alone ∙ rw turned, Numbered-append bs n behind v.1)

add_block-finds :
    (br : List BlockInfo) (n : ℤ)
    → breg_find br n ≡ none
    → breg_find (add_block br n).1 n ≡ (add_block br n).0
unfolding breg_find find_from
add_block-finds br n missing = elim (Bool-cases (leb 512 (length br))) [
  | inl full ↦ rw full missing
  | inr room ↦
      let own = find_from-append-none br (new_block n ∷ []) 0 n missing in
      let same : int_eq n n ≡ true = (int_eq_iff n n).1 refl in
      let at : (0 + length br) ≡ length br = omega arith in rw room (own ∙ rw same (ap some at))
]

or_add-finds :
    (br : List BlockInfo) (n : ℤ) (o : Option ℕ)
    → breg_find br n ≡ o
    → breg_find (or_add br n o).1 n ≡ (or_add br n o).0
or_add-finds br n none e = add_block-finds br n e
or_add-finds br n (some k) e = e

add_block-keeps :
    (br : List BlockInfo) (n m : ℤ) (j : ℕ)
    → breg_find br m ≡ some j
    → breg_find (add_block br n).1 m ≡ some j
unfolding breg_find
add_block-keeps br n m j there = elim (Bool-cases (leb 512 (length br))) [
  | inl full ↦ rw full there
  | inr room ↦ rw room (find_from-append-some br (new_block n ∷ []) 0 m j there)
]

or_add-keeps :
    (br : List BlockInfo) (n m : ℤ) (j : ℕ) (o : Option ℕ)
    → breg_find br m ≡ some j
    → breg_find (or_add br n o).1 m ≡ some j
or_add-keeps br n m j none there = add_block-keeps br n m j there
or_add-keeps br n m j (some k) there = there

or_add-IsValid :
    (br : List BlockInfo) (n : ℤ) (o : Option ℕ)
    → breg_find br n ≡ o
    → IsValid br
    → IsValid (or_add br n o).1
unfolding breg_find
or_add-IsValid br n (some k) e v = v
or_add-IsValid br n none e v = elim (Bool-cases (leb 512 (length br))) [
  | inl full ↦ rw full v
  | inr room ↦
      let longer = length-append br (new_block n ∷ []) in
      rw room (record { numbered = Numbered-append br n e v.numbered; bounded = ground arith })
]

-- What `breg_get_or_create` answers for a number, a block or none, is what `breg_find` then
-- answers for it.
pub breg_get_or_create-finds :
    (br : List BlockInfo) (n : ℤ)
    → breg_find (breg_get_or_create br n).1 n ≡ (breg_get_or_create br n).0
unfolding breg_get_or_create
breg_get_or_create-finds br n = or_add-finds br n (breg_find br n) refl

-- A number that was found is found at the same place after any `breg_get_or_create`.
pub breg_get_or_create-keeps :
    (br : List BlockInfo) (n m : ℤ) (j : ℕ)
    → breg_find br m ≡ some j
    → breg_find (breg_get_or_create br n).1 m ≡ some j
unfolding breg_get_or_create
breg_get_or_create-keeps br n m j there = or_add-keeps br n m j (breg_find br n) there

-- The registry keeps its shape: every number once, and no more than 512 blocks.
pub breg_get_or_create-IsValid :
    (br : List BlockInfo) (n : ℤ) → IsValid br → IsValid (breg_get_or_create br n).1
unfolding breg_get_or_create
breg_get_or_create-IsValid br n v = or_add-IsValid br n (breg_find br n) refl v
