-- ===== src/X86/Buffer.antt =====
-- `memcpy` into a buffer at an offset, as src/x86.c patches its code and fills its image, and the
-- bytes that stand at an offset.
use lu_language.Prelude.{
  ℕ, zero, suc, ◌+◌, ◌≤◌, Bytes, [], ◌∷◌, ◌++◌, length, take, drop, ◌≡◌, refl, ap, ◌⊎◌, inl, inr,
  arith,
}

-- Within the buffer; what the source never does, a copy past its end, leaves the buffer as it is.
abbrev pub overwrite : ℕ → Bytes → Bytes → Bytes
overwrite zero new old = new ++ drop (length new) old
overwrite (suc at) new [] = []
overwrite (suc at) new (c ∷ old) = c ∷ overwrite at new old

abbrev pub region : ℕ → ℕ → Bytes → Bytes
region at n bytes = take n (drop at bytes)

take-append : (xs ys : Bytes) → take (length xs) (xs ++ ys) ≡ xs
take-append [] ys = refl
take-append (x ∷ xs) ys = ap (◌∷◌ x) (take-append xs ys)

length-overwrite_start :
    (new old : Bytes) → length new ≤ length old → length (new ++ drop (length new) old) ≡ length old
length-overwrite_start [] old h = refl
length-overwrite_start (x ∷ new) [] h = omega arith
length-overwrite_start (x ∷ new) (c ∷ old) h = ap suc (length-overwrite_start new old (omega arith))

pub length-overwrite :
    (at : ℕ) (new old : Bytes)
    → at + length new ≤ length old
    → length (overwrite at new old) ≡ length old
length-overwrite zero new old h = length-overwrite_start new old (omega arith)
length-overwrite (suc at) new [] h = refl
length-overwrite (suc at) new (c ∷ old) h = ap suc (length-overwrite at new old (omega arith))

pub region-overwrite_same :
    (at : ℕ) (new old : Bytes)
    → at + length new ≤ length old
    → region at (length new) (overwrite at new old) ≡ new
region-overwrite_same zero new old h = take-append new (drop (length new) old)
region-overwrite_same (suc at) new [] h = absurd (omega arith)
region-overwrite_same (suc at) new (c ∷ old) h = region-overwrite_same at new old (omega arith)

region_behind :
    (at n : ℕ) (new old : Bytes)
    → length new ≤ at
    → length new ≤ length old
    → region at n (new ++ drop (length new) old) ≡ region at n old
region_behind at n [] old h b = refl
region_behind zero n (x ∷ new) old h b = absurd (omega arith)
region_behind (suc at) n (x ∷ new) [] h b = absurd (omega arith)
region_behind (suc at) n (x ∷ new) (c ∷ old) h b =
    region_behind at n new old (omega arith) (omega arith)

take_before : (at n : ℕ) (new old : Bytes) → n ≤ at → take n (overwrite at new old) ≡ take n old
take_before at zero new old h = refl
take_before zero (suc n) new old h = absurd (omega arith)
take_before (suc at) (suc n) new [] h = refl
take_before (suc at) (suc n) new (c ∷ old) h = ap (◌∷◌ c) (take_before at n new old (omega arith))

region_before :
    (p n at : ℕ) (new old : Bytes) → p + n ≤ at → region p n (overwrite at new old) ≡ region p n old
region_before zero n at new old h = take_before at n new old (omega arith)
region_before (suc p) n zero new old h = absurd (omega arith)
region_before (suc p) n (suc at) new [] h = refl
region_before (suc p) n (suc at) new (c ∷ old) h = region_before p n at new old (omega arith)

region_after :
    (p n at : ℕ) (new old : Bytes)
    → at + length new ≤ p
    → at + length new ≤ length old
    → region p n (overwrite at new old) ≡ region p n old
region_after p n zero new old h b = region_behind p n new old (omega arith) (omega arith)
region_after zero n (suc at) new old h b = absurd (omega arith)
region_after (suc p) n (suc at) new [] h b = refl
region_after (suc p) n (suc at) new (c ∷ old) h b =
    region_after p n at new old (omega arith) (omega arith)

abbrev pub Apart : ℕ → ℕ → ℕ → ℕ → Type 0
Apart p n at k = (p + n ≤ at) ⊎ (at + k ≤ p)

pub region-overwrite-Apart :
    (p n at : ℕ) (new old : Bytes)
    → Apart p n at (length new)
    → at + length new ≤ length old
    → region p n (overwrite at new old) ≡ region p n old
region-overwrite-Apart p n at new old (inl h) b = region_before p n at new old h
region-overwrite-Apart p n at new old (inr h) b = region_after p n at new old h b

-- What is appended moves nothing.
pub region-append_left :
    (p n : ℕ) (xs ys : Bytes) → p + n ≤ length xs → region p n (xs ++ ys) ≡ region p n xs
region-append_left zero zero xs ys h = refl
region-append_left zero (suc n) [] ys h = absurd (omega arith)
region-append_left zero (suc n) (x ∷ xs) ys h =
    ap (◌∷◌ x) (region-append_left zero n xs ys (omega arith))
region-append_left (suc p) n [] ys h = absurd (omega arith)
region-append_left (suc p) n (x ∷ xs) ys h = region-append_left p n xs ys (omega arith)
