-- ===== src/X86/Code.antt =====
-- The state `X` of src/x86.c with its labels and relocations: `new_label` to `i_lea_data`, and the
-- data section, `data_align` to `data_str`. What only the statements of a function use (the frame,
-- the temporaries and the stack of loops) is left out, as is the message of `xfail`.
use lu_language.Prelude.{
  ℕ, zero, suc, ◌+◌, ◌%◌, Bytes, List, Bool, true, [], ◌∷◌, ◌++◌, length, replicate, ◌==◌, leb, ltb,
  if◌then◌else◌,
}
use lu_language.X86.Buffer.{overwrite}

-- `cfix`, and `dfix` and `gdfix` with `doff` for the target.
pub record Fix : Type 0 where
  pub at : ℕ
  pub target : ℕ

pub record X : Type 0 where
  pub code : Bytes
  pub data_buf : Bytes
  pub label_pos : ℕ → ℕ
  pub nlabels : ℕ
  pub cfix : List Fix
  pub dfix : List Fix
  pub gdfix : List Fix
  pub failed : Bool

abbrev pub max_label : ℕ
max_label = 16384

abbrev pub max_fix : ℕ
max_fix = 65536

-- `emit bytes x` is a run of `e8` and `e32`.
abbrev pub emit : Bytes → X → X
emit bytes x = record x { code = x.code ++ bytes }

abbrev pub xfail : X → X
xfail x = record x { failed = true }

unfoldable pub new_label : X → ℕ × X
new_label x =
    if leb max_label x.nlabels
    then (0, xfail x)
    else (x.nlabels, record x { nlabels = x.nlabels + 1 })

abbrev pub put_label : ℕ → ℕ → (ℕ → ℕ) → ℕ → ℕ
put_label l pos old i = if i == l then pos else old i

-- A label is not negative here: `new_label` gives the labels.
unfoldable pub place_label : ℕ → X → X
place_label l x =
    if ltb l max_label then record x { label_pos = put_label l (length x.code) x.label_pos } else x

-- The loop of `align_loop` and `data_align`, on fuel: a byte at a time up to a multiple of n.
unfoldable pub pad_on : ℕ → ℕ → ℕ → Bytes → Bytes
pad_on zero n b buf = buf
pad_on (suc fuel) n b buf =
    let rest = pad_on fuel n b (buf ++ (b ∷ [])) in if length buf % n == 0 then buf else rest

abbrev pub align_loop : X → X
align_loop x = record x { code = pad_on 16 16 0x90 x.code }

unfoldable pub add_cfix : ℕ → ℕ → X → X
add_cfix at lbl x =
    if leb max_fix (length x.cfix)
    then xfail x
    else record x { cfix = x.cfix ++ (record { at = at; target = lbl } ∷ []) }

unfoldable pub add_dfx : ℕ → ℕ → X → X
add_dfx at doff x =
    if leb max_fix (length x.dfix)
    then xfail x
    else record x { dfix = x.dfix ++ (record { at = at; target = doff } ∷ []) }

unfoldable pub add_gdfx : ℕ → ℕ → X → X
add_gdfx at doff x =
    if leb max_fix (length x.gdfix)
    then xfail x
    else record x { gdfix = x.gdfix ++ (record { at = at; target = doff } ∷ []) }

-- The `memcpy` of an initial value into the data, at an offset where `data_alloc` made room.
abbrev pub data_write : ℕ → Bytes → X → X
data_write off bytes x = record x { data_buf = overwrite off bytes x.data_buf }

-- Four bytes for the linker to fill.
abbrev pub hole : Bytes
hole = 0 ∷ 0 ∷ 0 ∷ 0 ∷ []

-- An opcode, and a distance to a label behind it.
unfoldable pub branch : Bytes → ℕ → X → X
branch opcode l x = let y = emit opcode x in add_cfix (length y.code) l (emit hole y)

abbrev pub i_jmp : ℕ → X → X
i_jmp l x = branch (0xE9 ∷ []) l x

-- A condition code is below 16.
abbrev pub i_jcc : ℕ → ℕ → X → X
i_jcc cc l x = branch (0x0F ∷ (0x80 + cc) ∷ []) l x

abbrev pub i_call : ℕ → X → X
i_call l x = branch (0xE8 ∷ []) l x

abbrev pub i_syscall : X → X
i_syscall x = emit (0x0F ∷ 0x05 ∷ []) x

-- Bytes up to a distance to an offset of the data, and the distance.
unfoldable pub data_operand : Bytes → ℕ → X → X
data_operand opcode doff x = let y = emit opcode x in add_dfx (length y.code) doff (emit hole y)

abbrev pub i_lea_data : ℕ → X → X
i_lea_data doff x = data_operand (0x48 ∷ 0x8D ∷ 0x05 ∷ []) doff x

unfoldable pub data_align : ℕ → X → X
data_align n x = record x { data_buf = pad_on n n 0 x.data_buf }

unfoldable pub data_alloc : ℕ → X → ℕ × X
data_alloc n x =
    let y = data_align 8 x in
    (length y.data_buf, record y { data_buf = y.data_buf ++ replicate n 0 })

unfoldable pub data_bytes : Bytes → X → ℕ × X
data_bytes s x = (length x.data_buf, record x { data_buf = x.data_buf ++ s })

unfoldable pub data_str : Bytes → X → ℕ × X
data_str s x = let y = data_bytes s x in (y.0, record y.1 { data_buf = y.1.data_buf ++ (0 ∷ []) })
