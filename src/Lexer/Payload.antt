-- ===== src/Lexer/Payload.antt =====
-- What `read_cor`, `read_brace_payload` and `read_bracket_payload` of src/lexer.c read and leave.
use lu_language.Prelude.{
  ℕ, zero, suc, ◌-◌, ◌≤◌, Bytes, Bool, false, not, ◌&&◌, ◌==◌, ltb, [], ◌∷◌, ◌++◌, append-nil,
  append_assoc, length, length-append, take, take_of_length_le, take_while, drop_while,
  if◌then◌else◌, c_str, ◌≡◌, refl, sym, ap, ◌∙◌, inl, inr, Bool-cases, arith,
}
use lu_language.Lexer.Scan.{advance-rest, cur_cons}
use lu_language.Lexer.State.{
  Lexer, cur, advance, advance_in, payload_on, skip_byte, read_payload, read_cor,
  read_brace_payload, read_bracket_payload,
}

-- The bytes of a payload.
abbrev pub inside : ℕ → ℕ → Bool
inside stop c = not (c == 0) && not (c == stop)

-- The text behind the closing byte, where it stands.
abbrev pub behind_close : ℕ → Bytes → Bytes
behind_close stop [] = []
behind_close stop (c ∷ cs) = if c == stop then cs else c ∷ cs

pub take-append_full : (n : ℕ) (buf xs : Bytes) → length buf ≡ n → take n (buf ++ xs) ≡ buf
take-append_full zero [] xs e = refl
take-append_full (suc n) [] xs e = absurd (omega arith)
take-append_full zero (b ∷ buf) xs e = absurd (omega arith)
take-append_full (suc n) (b ∷ buf) xs e = ap (◌∷◌ b) (take-append_full n buf xs (omega arith))

-- One byte more, if there is room for it.
abbrev keep : ℕ → Bytes → ℕ → Bytes
keep n buf c = if ltb (length buf) n then buf ++ (c ∷ []) else buf

keep-take :
    (n : ℕ) (buf tail : Bytes) (c : ℕ)
    → length buf ≤ n
    → take n (keep n buf c ++ tail) ≡ take n (buf ++ (c ∷ tail))
keep-take n buf tail c short = elim (Bool-cases (ltb (length buf) n)) [
  | inl room ↦ rw room (ap (take n) (append_assoc buf (c ∷ []) tail))
  | inr full ↦
      let e : length buf ≡ n = ground arith in
      rw full (take-append_full n buf tail e ∙ sym (take-append_full n buf (c ∷ tail) e))
]

length-keep : (n : ℕ) (buf : Bytes) (c : ℕ) → length buf ≤ n → length (keep n buf c) ≤ n
length-keep n buf c short = elim (Bool-cases (ltb (length buf) n)) [
  | inl room ↦ let longer = length-append buf (c ∷ []) in rw room (ground arith)
  | inr full ↦ rw full short
]

record Read (n stop : ℕ) (buf : Bytes) (l : Lexer) (r : Bytes × Lexer) : Type 0 where
  kept : r.0 ≡ take n (buf ++ take_while (inside stop) l.rest)
  left : r.1.rest ≡ drop_while (inside stop) l.rest

payload_on-Read :
    (size stop : ℕ) (fuel buf : Bytes) (l : Lexer)
    → l.rest ≡ fuel
    → length buf ≤ size - 1
    → Read (size - 1) stop buf l (payload_on size stop fuel buf l)
unfolding payload_on
payload_on-Read size stop [] buf l e short = record {
  kept = rw (e, append-nil buf) (sym (take_of_length_le (size - 1) buf short));
  left = rw e refl;
}
payload_on-Read size stop (c ∷ fuel) buf l e short =
    let ih =
      payload_on-Read size stop fuel (keep (size - 1) buf c) (advance l) (advance-rest l e)
        (length-keep (size - 1) buf c short) in
    let at : cur l ≡ c = cur_cons l e in
    elim (Bool-cases (inside stop c)) [
      | inl more ↦
          rw (at, more)
            (record {
              kept =
                  ih.kept
                  ∙ rw (advance-rest l e, e, more)
                      (keep-take (size - 1) buf (take_while (inside stop) fuel) c short);
              left = ih.left ∙ rw (advance-rest l e, e, more) refl;
            })
      | inr over ↦
          rw (at, over)
            (record {
              kept = rw (e, over, append-nil buf) (sym (take_of_length_le (size - 1) buf short));
              left = rw (e, over) refl;
            })
    ]

advance-rest_nil : (l : Lexer) → l.rest ≡ [] → (advance l).rest ≡ []
unfolding advance
advance-rest_nil l e = ap (λ r. (advance_in r l).rest) e ∙ e

skip_byte-rest :
    (stop : ℕ) (l : Lexer) (r : Bytes) → l.rest ≡ r → (skip_byte stop l).rest ≡ behind_close stop r
unfolding skip_byte
skip_byte-rest stop l [] e = elim (Bool-cases (cur l == stop)) [
  | inl on ↦ rw on (advance-rest_nil l e)
  | inr off ↦ rw off e
]
skip_byte-rest stop l (c ∷ cs) e =
    let at : cur l ≡ c = cur_cons l e in
    elim (Bool-cases (c == stop)) [
      | inl on ↦ rw (at, on) (advance-rest l e)
      | inr off ↦ rw (at, off) e
    ]

c_str-inside :
    (n stop : ℕ) (xs : Bytes)
    → c_str (take n (take_while (inside stop) xs)) ≡ take n (take_while (inside stop) xs)
unfolding c_str
c_str-inside zero stop xs = refl
c_str-inside (suc n) stop [] = refl
c_str-inside (suc n) stop (x ∷ xs) = elim (Bool-cases (inside stop x)) [
  | inr off ↦ rw off refl
  | inl on ↦
      let nonzero : (x == 0) ≡ false = ground arith in
      rw (on, nonzero) (ap (◌∷◌ x) (c_str-inside n stop xs))
]

-- The bytes up to the closing one, of which a buffer of the size keeps all but one at most, and the
-- text behind it.
abbrev pub IsPayload : ℕ → ℕ → Bytes → Bytes × Lexer → Type 0
IsPayload size stop text r =
    (r.0 ≡ take (size - 1) (take_while (inside stop) text))
    × (r.1.rest ≡ behind_close stop (drop_while (inside stop) text))

read_payload-IsPayload :
    (size stop : ℕ) (l : Lexer) → IsPayload size stop l.rest (read_payload size stop l)
unfolding read_payload
read_payload-IsPayload size stop l =
    let r = payload_on-Read size stop l.rest [] l refl (omega arith) in
    (r.kept, skip_byte-rest stop _ _ r.left)

c_str-IsPayload :
    (size stop : ℕ) (text : Bytes) (r : Bytes × Lexer)
    → IsPayload size stop text r
    → IsPayload size stop text (c_str r.0, r.1)
c_str-IsPayload size stop text r p = (ap c_str p.0 ∙ c_str-inside (size - 1) stop text, p.1)

-- Behind the opening byte `read_cor` and `read_brace_payload` read up to `}` or a NUL and keep at
-- most 511 bytes, and `read_bracket_payload` reads up to `]` or a NUL and keeps at most 255; each
-- leaves the text behind the closing byte.
pub readers-IsPayload :
    (l : Lexer) (c : ℕ) (cs : Bytes)
    → l.rest ≡ c ∷ cs
    → IsPayload 512 b'}' cs (read_cor l)
      × (IsPayload 512 b'}' cs (read_brace_payload l)
          × IsPayload 256 b']' cs (read_bracket_payload l))
unfolding read_cor read_brace_payload read_bracket_payload
readers-IsPayload l c cs e =
    let brace =
      c_str-IsPayload 512 b'}' (advance l).rest (read_payload 512 b'}' (advance l))
        (read_payload-IsPayload 512 b'}' (advance l)) in
    let bracket =
      c_str-IsPayload 256 b']' (advance l).rest (read_payload 256 b']' (advance l))
        (read_payload-IsPayload 256 b']' (advance l)) in
    let ahead = sym (advance-rest l e) in rw ahead (brace, (brace, bracket))
