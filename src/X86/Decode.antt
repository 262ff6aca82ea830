-- ===== src/X86/Decode.antt =====
-- The fields of an x86-64 instruction, as the processor's manual gives them: a REX prefix, an
-- opcode of one or two bytes, ModRM with SIB and displacement, and an immediate. This is the part
-- of the instruction set that src/x86.c emits; it does not follow the encoder.
pub mod Fields
pub mod Forms
pub mod Indexed
pub mod Intended
pub mod Calls
use lu_language.Prelude.{
  ℕ, ◌+◌, ◌*◌, ◌/◌, ◌%◌, ℤ, pos, Bytes, Bool, true, false, ◌&&◌, [], ◌∷◌, Option, none, some, ltb,
  leb, ◌==◌, if◌then◌else◌,
}
use lu_language.X86.Word.{read4, signed8, signed32}

-- An operand: a register, or memory at base + displacement, at base + index * scale +
-- displacement, or at a distance from the next instruction.
pub data Rm : Type 0 where
  reg : ℕ → Rm
  mem : ℕ → ℤ → Rm
  sib : ℕ → ℕ → ℕ → ℤ → Rm
  rip : ℤ → Rm

-- The opcodes 0F xx are 256 + xx. `wide` is REX.W. `digit` is the register in the reg field,
-- or the opcode's extension.
pub record Insn : Type 0 where
  pub wide : Bool
  pub opcode : ℕ
  pub digit : ℕ
  pub rm : Rm
  pub imm : ℤ

pub record Rex : Type 0 where
  pub w : ℕ
  pub r : ℕ
  pub x : ℕ
  pub b : ℕ

abbrev pub no_rex : Rex
no_rex = record { w = 0; r = 0; x = 0; b = 0 }

abbrev pub is_rex : ℕ → Bool
is_rex c = c / 16 == 4

abbrev pub rex_of : ℕ → Rex
rex_of c = record { w = c / 8 % 2; r = c / 4 % 2; x = c / 2 % 2; b = c % 2 }

abbrev pub take_rex : Bytes → Rex × Bytes
take_rex [] = (no_rex, [])
take_rex (c ∷ cs) = if is_rex c then (rex_of c, cs) else (no_rex, c ∷ cs)

abbrev pub take_opcode : Bytes → Option (ℕ × Bytes)
take_opcode [] = none
take_opcode (c ∷ []) = some (c, [])
take_opcode (c ∷ d ∷ cs) = if c == 0x0F then some (256 + d, cs) else some (c, d ∷ cs)

abbrev pub disp8_on : (ℤ → Rm) → Bytes → Option (Rm × Bytes)
disp8_on f [] = none
disp8_on f (d ∷ cs) = some (f (signed8 d), cs)

abbrev pub disp32_on : (ℤ → Rm) → Option (ℕ × Bytes) → Option (Rm × Bytes)
disp32_on f none = none
disp32_on f (some (w, cs)) = some (f (signed32 w), cs)

-- The displacement that the mod field asks for.
abbrev pub disp_on : ℕ → (ℤ → Rm) → Bytes → Option (Rm × Bytes)
disp_on form f cs =
    if form == 0
    then some (f (pos 0), cs)
    else if form == 1
    then disp8_on f cs
    else disp32_on f (read4 cs)

abbrev pub scale_of : ℕ → ℕ
scale_of ss = if ss == 0 then 1 else if ss == 1 then 2 else if ss == 2 then 4 else 8

-- Index 4 is none. No base (form 0, base 5) does not occur.
abbrev pub sib_on : Rex → ℕ → Bytes → Option (Rm × Bytes)
sib_on rex form [] = none
sib_on rex form (s ∷ cs) =
    let base = s % 8 + 8 * rex.b in
    let index = s / 8 % 8 + 8 * rex.x in
    if (form == 0) && (s % 8 == 5)
    then none
    else if index == 4
    then disp_on form (λ d. mem base d) cs
    else disp_on form (λ d. sib base index (scale_of (s / 64)) d) cs

unfoldable pub take_rm : Rex → ℕ → Bytes → Option (Rm × Bytes)
take_rm rex m cs =
    let low_rm = m % 8 in
    let form = m / 64 in
    if form == 3
    then some (reg (low_rm + 8 * rex.b), cs)
    else if low_rm == 4
    then sib_on rex form cs
    else if (form == 0) && (low_rm == 5)
    then disp32_on (λ d. rip d) (read4 cs)
    else disp_on form (λ d. mem (low_rm + 8 * rex.b) d) cs

-- What follows the opcode: ModRM and an immediate of so many bytes, or none.
abbrev pub imm_bytes : ℕ → ℕ → ℕ
imm_bytes opcode digit =
    if opcode == 0x83
    then 1
    else if opcode == 0xC1
    then 1
    else if opcode == 0x6B
    then 1
    else if opcode == 0x80
    then 1
    else if opcode == 0x81
    then 4
    else if opcode == 0x69
    then 4
    else if opcode == 0xC7
    then 4
    else 0

abbrev pub insn : Rex → ℕ → ℕ → Rm → ℤ → Insn
insn rex opcode m rm imm = record {
  wide = rex.w == 1;
  opcode = opcode;
  digit = m / 8 % 8 + 8 * rex.r;
  rm = rm;
  imm = imm;
}

abbrev pub imm8_behind : (ℤ → Insn) → Bytes → Option (Insn × Bytes)
imm8_behind f [] = none
imm8_behind f (c ∷ cs) = some (f (signed8 c), cs)

abbrev pub imm32_behind : (ℤ → Insn) → Option (ℕ × Bytes) → Option (Insn × Bytes)
imm32_behind f none = none
imm32_behind f (some (w, cs)) = some (f (signed32 w), cs)

abbrev pub take_imm : ℕ → (ℤ → Insn) → Bytes → Option (Insn × Bytes)
take_imm n f cs =
    if n == 0
    then some (f (pos 0), cs)
    else if n == 1
    then imm8_behind f cs
    else imm32_behind f (read4 cs)

abbrev pub behind_rm : Rex → ℕ → ℕ → Option (Rm × Bytes) → Option (Insn × Bytes)
behind_rm rex opcode m none = none
behind_rm rex opcode m (some (rm, cs)) =
    take_imm (imm_bytes opcode (m / 8 % 8)) (λ v. insn rex opcode m rm v) cs

abbrev pub decode_modrm : Rex → ℕ → Bytes → Option (Insn × Bytes)
decode_modrm rex opcode [] = none
decode_modrm rex opcode (m ∷ cs) = behind_rm rex opcode m (take_rm rex m cs)

abbrev pub behind_opcode : Rex → Option (ℕ × Bytes) → Option (Insn × Bytes)
behind_opcode rex none = none
behind_opcode rex (some (opcode, cs)) = decode_modrm rex opcode cs

-- An instruction with ModRM.
unfoldable pub decode : Bytes → Option (Insn × Bytes)
decode cs = let (rex, behind) = take_rex cs in behind_opcode rex (take_opcode behind)
