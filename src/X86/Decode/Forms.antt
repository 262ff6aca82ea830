-- ===== src/X86/Decode/Forms.antt =====
-- The forms of instruction that the encoder of src/x86.c builds from its parts.
use lu_language.Prelude.{
  ℕ, ◌+◌, ◌*◌, ◌/◌, ◌%◌, ◌<◌, ℤ, pos, Bytes, true, false, ◌∷◌, ◌++◌, some, ◌==◌, ◌≡◌, refl, sym, ap,
  ◌∙◌, inl, inr, Bool-cases, arith,
}
use lu_language.X86.Word.{IsInt32, imm8_ok}
use lu_language.X86.Encode.{high, low, rex_w, rex_nw, modrm_byte, modrm_rr, modrm_mem, e8, e32}
use lu_language.X86.Decode.{Rm, reg, mem, Insn, Rex, no_rex, take_rm, imm_bytes, decode}
use lu_language.X86.Decode.Fields.{
  bits, take_rm-reg, take_rm-mem, finished, decode-rex, decode-rex_two, decode-plain,
  decode-plain_two, finished-none, finished-imm8, finished-imm32,
}

-- The prefix of `rex_w`.
abbrev pub wide_rex : ℕ → ℕ → Rex
wide_rex r b = bits 1 (high r) 0 (high b)

abbrev pub narrow_rex : ℕ → ℕ → Rex
narrow_rex r b = bits 0 (high r) 0 (high b)

pub decode-rex_w :
    (r b opcode m : ℕ) (cs : Bytes) (rm : Rm) (rest : Bytes)
    → (opcode == 0x0F) ≡ false
    → take_rm (wide_rex r b) m cs ≡ some (rm, rest)
    → decode (rex_w r b ∷ opcode ∷ m ∷ cs) ≡ finished (wide_rex r b) opcode m rm rest
decode-rex_w r b opcode m cs rm rest plain e =
    let prefix : rex_w r b ≡ 0x40 + 8 * 1 + 4 * high r + 2 * 0 + high b = omega arith in
    ap (λ k. decode (k ∷ opcode ∷ m ∷ cs)) prefix
    ∙ decode-rex 1 (high r) 0 (high b) opcode m cs rm rest (omega arith) (omega arith) (omega arith)
        (omega arith) plain e

low_rex : (r b : ℕ) → (0x40 + 4 * high r + high b == 0x40) ≡ true → narrow_rex r b ≡ no_rex
low_rex r b h =
    let hr : high r ≡ 0 = ground arith in
    let hb : high b ≡ 0 = ground arith in
    ap (λ k. bits 0 k 0 (high b)) hr ∙ ap (λ k. bits 0 0 0 k) hb

pub decode-rex_nw :
    (r b opcode m : ℕ) (cs : Bytes) (rm : Rm) (rest : Bytes)
    → (opcode / 16 == 4) ≡ false
    → (opcode == 0x0F) ≡ false
    → take_rm (narrow_rex r b) m cs ≡ some (rm, rest)
    → decode (rex_nw r b ++ (opcode ∷ m ∷ cs)) ≡ finished (narrow_rex r b) opcode m rm rest
unfolding rex_nw
decode-rex_nw r b opcode m cs rm rest np plain e =
    elim (Bool-cases (0x40 + 4 * high r + high b == 0x40)) [
      | inl none_there ↦
          let same = low_rex r b none_there in
          rw none_there (
            decode-plain opcode m cs rm rest np plain (ap (λ k. take_rm k m cs) (sym same) ∙ e)
            ∙ ap (λ k. finished k opcode m rm rest) (sym same))
      | inr there ↦
          let prefix : 0x40 + 4 * high r + high b ≡ 0x40 + 8 * 0 + 4 * high r + 2 * 0 + high b =
            omega arith in
          rw there (
            ap (λ k. decode (k ∷ opcode ∷ m ∷ cs)) prefix
            ∙ decode-rex 0 (high r) 0 (high b) opcode m cs rm rest (omega arith) (omega arith)
                (omega arith) (omega arith) plain e)
    ]

pub decode-rex_nw_two :
    (r b opcode m : ℕ) (cs : Bytes) (rm : Rm) (rest : Bytes)
    → take_rm (narrow_rex r b) m cs ≡ some (rm, rest)
    → decode (rex_nw r b ++ (0x0F ∷ opcode ∷ m ∷ cs))
      ≡ finished (narrow_rex r b) (256 + opcode) m rm rest
unfolding rex_nw
decode-rex_nw_two r b opcode m cs rm rest e =
    elim (Bool-cases (0x40 + 4 * high r + high b == 0x40)) [
      | inl none_there ↦
          let same = low_rex r b none_there in
          rw none_there (
            decode-plain_two opcode m cs rm rest (ap (λ k. take_rm k m cs) (sym same) ∙ e)
            ∙ ap (λ k. finished k (256 + opcode) m rm rest) (sym same))
      | inr there ↦
          let prefix : 0x40 + 4 * high r + high b ≡ 0x40 + 8 * 0 + 4 * high r + 2 * 0 + high b =
            omega arith in
          rw there (
            ap (λ k. decode (k ∷ 0x0F ∷ opcode ∷ m ∷ cs)) prefix
            ∙ decode-rex_two 0 (high r) 0 (high b) opcode m cs rm rest (omega arith) (omega arith)
                (omega arith) (omega arith) e)
    ]

-- Operands.
pub take_rm-rr :
    (rex : Rex) (digit rm : ℕ) (cs : Bytes)
    → rm < 16
    → rex.b ≡ high rm
    → take_rm rex (modrm_byte 0xC0 digit rm) cs ≡ some (reg rm, cs)
take_rm-rr rex digit rm cs h e =
    let same : modrm_byte 0xC0 digit rm % 8 + 8 * rex.b ≡ rm = omega arith in
    take_rm-reg rex (modrm_byte 0xC0 digit rm) cs (omega arith) ∙ ap (λ k. some (reg k, cs)) same

pub take_rm-rbp :
    (rex : Rex) (digit : ℕ) (d : ℤ) (cs : Bytes)
    → rex.b ≡ 0
    → IsInt32 d
    → take_rm rex (modrm_byte 0x80 digit 5) (e32 d ++ cs) ≡ some (mem 5 d, cs)
take_rm-rbp rex digit d cs e h =
    let same : modrm_byte 0x80 digit 5 % 8 + 8 * rex.b ≡ 5 = omega arith in
    take_rm-mem rex (modrm_byte 0x80 digit 5) d cs (omega arith) (ground arith) h
    ∙ ap (λ k. some (mem k d, cs)) same

-- A 64-bit instruction between registers.
abbrev pub wide_insn : ℕ → ℕ → Rm → ℤ → Insn
wide_insn opcode digit rm imm = record {
  wide = true;
  opcode = opcode;
  digit = digit;
  rm = rm;
  imm = imm;
}

abbrev pub narrow_insn : ℕ → ℕ → Rm → ℤ → Insn
narrow_insn opcode digit rm imm = record {
  wide = false;
  opcode = opcode;
  digit = digit;
  rm = rm;
  imm = imm;
}

module _ (opcode digit : ℕ) (cs : Bytes) (plain : (opcode == 0x0F) ≡ false) (hd : digit < 16) where
  pub decode_rr :
      (rm : ℕ)
      → imm_bytes opcode (low digit) ≡ 0
      → rm < 16
      → decode (rex_w digit rm ∷ opcode ∷ modrm_rr digit rm ++ cs)
        ≡ some (wide_insn opcode digit (reg rm) (pos 0), cs)
  unfolding modrm_rr
  decode_rr rm none_behind hr =
      decode-rex_w digit rm opcode _ cs (reg rm) cs plain
        (take_rm-rr (wide_rex digit rm) digit rm cs hr refl)
      ∙ finished-none (wide_rex digit rm) opcode digit (modrm_byte 0xC0 digit rm) (reg rm) hd refl
          (omega arith) cs none_behind

  pub decode_rr_imm8 :
      (rm : ℕ) (v : ℤ)
      → imm_bytes opcode (low digit) ≡ 1
      → rm < 16
      → imm8_ok v ≡ true
      → decode (rex_w digit rm ∷ opcode ∷ modrm_rr digit rm ++ (e8 v ++ cs))
        ≡ some (wide_insn opcode digit (reg rm) v, cs)
  unfolding modrm_rr
  decode_rr_imm8 rm v one hr small =
      decode-rex_w digit rm opcode _ (e8 v ++ cs) (reg rm) (e8 v ++ cs) plain
        (take_rm-rr (wide_rex digit rm) digit rm _ hr refl)
      ∙ finished-imm8 (wide_rex digit rm) opcode digit (modrm_byte 0xC0 digit rm) (reg rm) hd refl
          (omega arith) v cs one small

  pub decode_rr_imm32 :
      (rm : ℕ) (v : ℤ)
      → imm_bytes opcode (low digit) ≡ 4
      → rm < 16
      → IsInt32 v
      → decode (rex_w digit rm ∷ opcode ∷ modrm_rr digit rm ++ (e32 v ++ cs))
        ≡ some (wide_insn opcode digit (reg rm) v, cs)
  unfolding modrm_rr
  decode_rr_imm32 rm v four hr range =
      decode-rex_w digit rm opcode _ (e32 v ++ cs) (reg rm) (e32 v ++ cs) plain
        (take_rm-rr (wide_rex digit rm) digit rm _ hr refl)
      ∙ finished-imm32 (wide_rex digit rm) opcode digit (modrm_byte 0xC0 digit rm) (reg rm) hd refl
          (omega arith) v cs four range

  pub decode_rbp :
      (d : ℤ)
      → imm_bytes opcode (low digit) ≡ 0
      → IsInt32 d
      → decode (rex_w digit 5 ∷ opcode ∷ modrm_mem digit 5 d ++ cs)
        ≡ some (wide_insn opcode digit (mem 5 d) (pos 0), cs)
  unfolding modrm_mem
  decode_rbp d none_behind range =
      decode-rex_w digit 5 opcode _ (e32 d ++ cs) (mem 5 d) cs plain
        (take_rm-rbp (wide_rex digit 5) digit d cs refl range)
      ∙ finished-none (wide_rex digit 5) opcode digit (modrm_byte 0x80 digit 5) (mem 5 d) hd refl
          (omega arith) cs none_behind

  pub decode_rbp_narrow :
      (d : ℤ)
      → (opcode / 16 == 4) ≡ false
      → imm_bytes opcode (low digit) ≡ 0
      → IsInt32 d
      → decode (rex_nw digit 5 ++ (opcode ∷ modrm_mem digit 5 d ++ cs))
        ≡ some (narrow_insn opcode digit (mem 5 d) (pos 0), cs)
  unfolding modrm_mem
  decode_rbp_narrow d np none_behind range =
      decode-rex_nw digit 5 opcode _ (e32 d ++ cs) (mem 5 d) cs np plain
        (take_rm-rbp (narrow_rex digit 5) digit d cs refl range)
      ∙ finished-none (narrow_rex digit 5) opcode digit (modrm_byte 0x80 digit 5) (mem 5 d) hd refl
          (omega arith) cs none_behind

  pub decode_rbp_narrow_two :
      (d : ℤ)
      → imm_bytes (256 + opcode) (low digit) ≡ 0
      → IsInt32 d
      → decode (rex_nw digit 5 ++ (0x0F ∷ opcode ∷ modrm_mem digit 5 d ++ cs))
        ≡ some (narrow_insn (256 + opcode) digit (mem 5 d) (pos 0), cs)
  unfolding modrm_mem
  decode_rbp_narrow_two d none_behind range =
      decode-rex_nw_two digit 5 opcode _ (e32 d ++ cs) (mem 5 d) cs
        (take_rm-rbp (narrow_rex digit 5) digit d cs refl range)
      ∙ finished-none (narrow_rex digit 5) (256 + opcode) digit (modrm_byte 0x80 digit 5) (mem 5 d)
          hd refl (omega arith) cs none_behind
