-- ===== src/X86/Link/Targets.antt =====
-- Where the code that src/x86.c has linked goes: the address that the processor computes from a
-- distance.
use mathlib.Core.List.{Memᴰ}
use lu_language.Prelude.{
  ℕ, ◌+◌, ◌*◌, ◌%◌, ◌<◌, ℤ, Bytes, true, ◌∷◌, length, ltb, if◌then◌else◌, All, All-Mem, ◌≡◌, refl,
  ap, ◌∙◌, arith,
}
use lu_language.X86.Word.{word32, word32-lt}
use lu_language.X86.Encode.{e32}
use lu_language.X86.Buffer.{region}
use lu_language.X86.Code.{Fix, X}
use lu_language.X86.Link.{xv_code_va, diff, patch, code_value, data_value, data_va, link}
use lu_language.X86.Link.Patch.{
  Inside, Beside, Rising-Inside, length-patch, region-patch, region-patch-Beside,
}
use lu_language.X86.Link.Steps.{IsLinkable, Reach, start, Reach-IsLinkable}

abbrev pub word_of : Bytes → ℕ
word_of (a ∷ b ∷ c ∷ d ∷ rest) = a + 256 * b + 65536 * c + 16777216 * d
word_of _ = 0

-- 32 bits extended by their sign to 64.
abbrev pub sign_extend : ℕ → ℕ
sign_extend w = if ltb w 2147483648 then w else w + 18446744069414584320

-- The instruction ends at the offset `next` of the code, and its distance stands at `at`.
abbrev pub destination : ℕ → ℕ → Bytes → ℕ
destination at next code =
    (xv_code_va + next + sign_extend (word_of (region at 4 code))) % 18446744073709551616

length-e32 : (v : ℤ) → length (e32 v) ≡ 4
length-e32 v = refl

word_of-e32 : (v : ℤ) → word_of (e32 v) ≡ word32 v
word_of-e32 v = omega (arith, word32-lt v)

-- A distance of 32 bits leads to its target.
extend_diff :
    (a b base : ℕ)
    → a < b + 2147483648
    → b < a + 2147483648
    → base + a < 9223372036854775808
    → (base + b + sign_extend (word32 (diff a b))) % 18446744073709551616 ≡ base + a
extend_diff a b base h k s = ground arith

to_value :
    (at next : ℕ) (code : Bytes) (v : ℤ)
    → region at 4 code ≡ e32 v
    → destination at next code ≡ (xv_code_va + next + sign_extend (word32 v)) % 18446744073709551616
to_value at next code v e =
    ap (λ k. (xv_code_va + next + sign_extend k) % 18446744073709551616)
      (ap word_of e ∙ word_of-e32 v)

ltb_of_lt : (a b : ℕ) → a < b → ltb a b ≡ true
ltb_of_lt a b h = ground arith

-- What stands in the slots of the linked code.
module _ (x : X) (h : IsLinkable x) where
  calls-Inside : All (Inside (length x.code)) x.cfix
  calls-Inside = Rising-Inside 0 (length x.code) x.cfix h.calls_rise

  data-Inside : All (Inside (length x.code)) x.dfix
  data-Inside = Rising-Inside 0 (length x.code) x.dfix h.data_rises

  after_calls : Bytes
  after_calls = patch (code_value x) x.cfix x.code

  length-after_calls : length after_calls ≡ length x.code
  unfolding after_calls
  length-after_calls = length-patch (code_value x) (λ f. refl) x.cfix x.code calls-Inside

  region-call : (f : Fix) → Memᴰ f x.cfix → region f.at 4 (link x).code ≡ code_value x f
  unfolding link after_calls
  region-call f m =
      region-patch-Beside (data_value (data_va (length x.code))) (λ g. refl) f x.dfix after_calls
        (rw length-after_calls data-Inside)
        (All-Mem (λ g. All (Beside g) x.dfix) f x.cfix h.beside m)
      ∙ region-patch (code_value x) (λ g. refl) f 0 x.cfix x.code h.calls_rise m

  region-data :
      (f : Fix)
      → Memᴰ f x.dfix
      → region f.at 4 (link x).code ≡ data_value (data_va (length x.code)) f
  unfolding link after_calls
  region-data f m =
      region-patch (data_value (data_va (length x.code))) (λ g. refl) f 0 x.dfix after_calls
        (rw length-after_calls h.data_rises) m

-- Whatever operations built the code, of less than 2^31 bytes: once it is linked, a jump or call
-- that was noted with one of the labels made goes to the address where that label was placed last.
pub destination-branch :
    (x : X) (f : Fix)
    → Reach start x
    → Memᴰ f x.cfix
    → f.target < x.nlabels
    → length x.code < 2147483648
    → destination f.at (f.at + 4) (link x).code ≡ xv_code_va + x.label_pos f.target
destination-branch x f r m made small =
    let h = Reach-IsLinkable r in
    let inside = All-Mem (Inside (length x.code)) f x.cfix (calls-Inside x h) m in
    let known : code_value x f ≡ e32 (diff (x.label_pos f.target) (f.at + 4)) =
      rw (ltb_of_lt f.target x.nlabels made) refl in
    to_value f.at (f.at + 4) (link x).code (diff (x.label_pos f.target) (f.at + 4))
      (region-call x h f m ∙ known)
    ∙ extend_diff (x.label_pos f.target) (f.at + 4) xv_code_va
        (omega (arith, inside, h.labels_inside f.target, small))
        (omega (arith, inside, h.labels_inside f.target, small))
        (omega (arith, inside, h.labels_inside f.target, small))

-- Whatever operations built the code: once it is linked, an operand that was noted with an offset
-- of the data is at that offset of the data section, plus the bytes that the instruction has behind
-- its distance. Code and data are less than 2^31 bytes less three pages.
pub destination-data :
    (x : X) (f : Fix) (behind : ℕ)
    → Reach start x
    → Memᴰ f x.dfix
    → length x.code + f.target < 2147471360
    → behind < 16
    → destination f.at (f.at + 4 + behind) (link x).code
      ≡ data_va (length x.code) + f.target + behind
destination-data x f behind r m small few =
    let h = Reach-IsLinkable r in
    let inside = All-Mem (Inside (length x.code)) f x.dfix (data-Inside x h) m in
    let a = data_va (length x.code) + f.target in
    let b = xv_code_va + f.at + 4 in
    to_value f.at (f.at + 4 + behind) (link x).code (diff a b) (region-data x h f m)
    ∙ ap (λ k. (k + sign_extend (word32 (diff a b))) % 18446744073709551616) (omega (arith, inside))
    ∙ extend_diff a b behind (omega (arith, inside, small)) (omega (arith, inside, small))
        (omega (arith, small, few))
    ∙ omega arith
