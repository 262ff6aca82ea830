-- ===== src/X86/Decode/Fields.antt =====
-- How the decoder reads the prefixes, operands and immediates that the encoder of src/x86.c writes.
use lu_language.Prelude.{
  ℕ, ◌+◌, ◌*◌, ◌/◌, ◌%◌, ◌<◌, ℤ, pos, Bytes, true, false, ◌∷◌, ◌++◌, Option, some, ◌==◌, ◌≡◌, refl,
  ap, ◌∙◌, arith,
}
use lu_language.X86.Word.{
  IsInt32, word32, read4, imm8_ok, signed8-word8, signed32-word32, read4-le4, word32-lt,
}
use lu_language.X86.Encode.{high, low, e8, e32}
use lu_language.X86.Decode.{
  Rm, reg, mem, Insn, Rex, take_rex, take_opcode, disp32_on, imm32_behind, take_rm, take_imm,
  no_rex, behind_opcode, imm_bytes, behind_rm, insn, decode,
}

-- The prefix with its four bits.
abbrev pub bits : ℕ → ℕ → ℕ → ℕ → Rex
bits w r x b = record { w = w; r = r; x = x; b = b }

pub take_rex_lem :
    (w r x b : ℕ) (cs : Bytes)
    → w < 2
    → r < 2
    → x < 2
    → b < 2
    → take_rex ((0x40 + 8 * w + 4 * r + 2 * x + b) ∷ cs) ≡ (bits w r x b, cs)
take_rex_lem w r x b cs hw hr hx hb = ground arith

-- ModRM with a register operand.
pub take_rm-reg :
    (rex : Rex) (m : ℕ) (cs : Bytes)
    → m / 64 ≡ 3
    → take_rm rex m cs ≡ some (reg (m % 8 + 8 * rex.b), cs)
unfolding take_rm
take_rm-reg rex m cs h = ground arith

pub disp32_on-e32 :
    (f : ℤ → Rm) (d : ℤ) (cs : Bytes)
    → IsInt32 d
    → disp32_on f (read4 (e32 d ++ cs)) ≡ some (f d, cs)
disp32_on-e32 f d cs h =
    ap (disp32_on f) (read4-le4 (word32 d) cs (word32-lt d))
    ∙ ap (λ k. some (f k, cs)) (signed32-word32 d h)

pub imm32_behind-e32 :
    (f : ℤ → Insn) (v : ℤ) (cs : Bytes)
    → IsInt32 v
    → imm32_behind f (read4 (e32 v ++ cs)) ≡ some (f v, cs)
imm32_behind-e32 f v cs h =
    ap (imm32_behind f) (read4-le4 (word32 v) cs (word32-lt v))
    ∙ ap (λ k. some (f k, cs)) (signed32-word32 v h)

-- ModRM with a displacement of 32 bits.
pub take_rm-mem :
    (rex : Rex) (m : ℕ) (d : ℤ) (cs : Bytes)
    → m / 64 ≡ 2
    → (m % 8 == 4) ≡ false
    → IsInt32 d
    → take_rm rex m (e32 d ++ cs) ≡ some (mem (m % 8 + 8 * rex.b) d, cs)
unfolding take_rm
take_rm-mem rex m d cs h n r = rw (h, n) (disp32_on-e32 (λ k. mem (m % 8 + 8 * rex.b) k) d cs r)

-- Registers, as the fields join them.
pub low-high : (r : ℕ) → r < 16 → low r + 8 * high r ≡ r
low-high r h = omega arith

-- The instruction behind its operand.
abbrev pub finished : Rex → ℕ → ℕ → Rm → Bytes → Option (Insn × Bytes)
finished rex opcode m rm rest =
    take_imm (imm_bytes opcode (m / 8 % 8)) (λ v. insn rex opcode m rm v) rest

behind_opcode-plain :
    (rex : Rex) (opcode m : ℕ) (cs : Bytes)
    → (opcode == 0x0F) ≡ false
    → behind_opcode rex (take_opcode (opcode ∷ m ∷ cs)) ≡ behind_rm rex opcode m (take_rm rex m cs)
behind_opcode-plain rex opcode m cs h = rw h refl

-- With a REX prefix.
pub decode-rex :
    (w r x b opcode m : ℕ) (cs : Bytes) (rm : Rm) (rest : Bytes)
    → w < 2
    → r < 2
    → x < 2
    → b < 2
    → (opcode == 0x0F) ≡ false
    → take_rm (bits w r x b) m cs ≡ some (rm, rest)
    → decode ((0x40 + 8 * w + 4 * r + 2 * x + b) ∷ opcode ∷ m ∷ cs)
      ≡ finished (bits w r x b) opcode m rm rest
unfolding decode
decode-rex w r x b opcode m cs rm rest hw hr hx hb plain e =
    ap (λ p. behind_opcode p.0 (take_opcode p.1))
      (take_rex_lem w r x b (opcode ∷ m ∷ cs) hw hr hx hb)
    ∙ behind_opcode-plain (bits w r x b) opcode m cs plain
    ∙ ap (behind_rm (bits w r x b) opcode m) e

-- With a prefix and an opcode of two bytes.
pub decode-rex_two :
    (w r x b opcode m : ℕ) (cs : Bytes) (rm : Rm) (rest : Bytes)
    → w < 2
    → r < 2
    → x < 2
    → b < 2
    → take_rm (bits w r x b) m cs ≡ some (rm, rest)
    → decode ((0x40 + 8 * w + 4 * r + 2 * x + b) ∷ 0x0F ∷ opcode ∷ m ∷ cs)
      ≡ finished (bits w r x b) (256 + opcode) m rm rest
unfolding decode
decode-rex_two w r x b opcode m cs rm rest hw hr hx hb e =
    ap (λ p. behind_opcode p.0 (take_opcode p.1))
      (take_rex_lem w r x b (0x0F ∷ opcode ∷ m ∷ cs) hw hr hx hb)
    ∙ ap (behind_rm (bits w r x b) (256 + opcode) m) e

plain_rex : (c : ℕ) (cs : Bytes) → (c / 16 == 4) ≡ false → take_rex (c ∷ cs) ≡ (no_rex, c ∷ cs)
plain_rex c cs h = rw h refl

-- With no prefix.
pub decode-plain :
    (opcode m : ℕ) (cs : Bytes) (rm : Rm) (rest : Bytes)
    → (opcode / 16 == 4) ≡ false
    → (opcode == 0x0F) ≡ false
    → take_rm no_rex m cs ≡ some (rm, rest)
    → decode (opcode ∷ m ∷ cs) ≡ finished no_rex opcode m rm rest
unfolding decode
decode-plain opcode m cs rm rest no_prefix plain e =
    ap (λ (p : Rex × Bytes). behind_opcode p.0 (take_opcode p.1))
      (plain_rex opcode (m ∷ cs) no_prefix)
    ∙ behind_opcode-plain no_rex opcode m cs plain
    ∙ ap (behind_rm no_rex opcode m) e

pub decode-plain_two :
    (opcode m : ℕ) (cs : Bytes) (rm : Rm) (rest : Bytes)
    → take_rm no_rex m cs ≡ some (rm, rest)
    → decode (0x0F ∷ opcode ∷ m ∷ cs) ≡ finished no_rex (256 + opcode) m rm rest
unfolding decode
decode-plain_two opcode m cs rm rest e = ap (behind_rm no_rex (256 + opcode) m) e

module _ (rex : Rex) (opcode digit m : ℕ) (rm : Rm) where
  -- The fields of an instruction with an immediate.
  abbrev pub fields : ℤ → Insn
  fields v = record { wide = rex.w == 1; opcode = opcode; digit = digit; rm = rm; imm = v }

  module _ (d : digit < 16) (r : rex.r ≡ high digit) (e : m / 8 % 8 ≡ low digit) where
    insn-fields : (v : ℤ) → insn rex opcode m rm v ≡ fields v
    insn-fields v =
        let same : m / 8 % 8 + 8 * rex.r ≡ digit = omega arith in
        ap (λ (k : ℕ). record { wide = rex.w == 1; opcode = opcode; digit = k; rm = rm; imm = v })
          same

    pub finished-none :
        (rest : Bytes)
        → imm_bytes opcode (low digit) ≡ 0
        → finished rex opcode m rm rest ≡ some (fields (pos 0), rest)
    finished-none rest h =
        ap (λ k. take_imm (imm_bytes opcode k) (λ v. insn rex opcode m rm v) rest) e
        ∙ ap (λ k. take_imm k (λ v. insn rex opcode m rm v) rest) h
        ∙ ap (λ k. some (k, rest)) (insn-fields (pos 0))

    pub finished-imm8 :
        (v : ℤ) (rest : Bytes)
        → imm_bytes opcode (low digit) ≡ 1
        → imm8_ok v ≡ true
        → finished rex opcode m rm (e8 v ++ rest) ≡ some (fields v, rest)
    finished-imm8 v rest h small =
        ap (λ k. take_imm (imm_bytes opcode k) (λ v. insn rex opcode m rm v) (e8 v ++ rest)) e
        ∙ ap (λ k. take_imm k (λ v. insn rex opcode m rm v) (e8 v ++ rest)) h
        ∙ ap (λ k. some (insn rex opcode m rm k, rest)) (signed8-word8 v small)
        ∙ ap (λ k. some (k, rest)) (insn-fields v)

    pub finished-imm32 :
        (v : ℤ) (rest : Bytes)
        → imm_bytes opcode (low digit) ≡ 4
        → IsInt32 v
        → finished rex opcode m rm (e32 v ++ rest) ≡ some (fields v, rest)
    finished-imm32 v rest h range =
        ap (λ k. take_imm (imm_bytes opcode k) (λ v. insn rex opcode m rm v) (e32 v ++ rest)) e
        ∙ ap (λ k. take_imm k (λ v. insn rex opcode m rm v) (e32 v ++ rest)) h
        ∙ imm32_behind-e32 (λ v. insn rex opcode m rm v) v rest range
        ∙ ap (λ k. some (k, rest)) (insn-fields v)
