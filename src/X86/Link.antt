-- ===== src/X86/Link.antt =====
-- The last part of `native_compile` in src/x86.c: the distances and addresses that are filled in when
-- the code is complete, and where the image puts code and data.
pub mod Patch
pub mod Steps
pub mod Targets
pub mod Globals
mod Tests
use lu_language.Prelude.{
  ℕ, zero, suc, ◌+◌, ◌-◌, ◌*◌, ◌/◌, ◌%◌, ℤ, pos, negsuc, Bytes, List, [], ◌∷◌, length, leb, ltb,
  if◌then◌else◌,
}
use lu_language.X86.Word.{le8}
use lu_language.X86.Encode.{e32}
use lu_language.X86.Buffer.{overwrite}
use lu_language.X86.Code.{Fix, X}

abbrev pub xv_page : ℕ
xv_page = 4096

abbrev pub xv_base : ℕ
xv_base = 0x400000

abbrev pub xv_code_off : ℕ
xv_code_off = 0x1000

abbrev pub xv_code_va : ℕ
xv_code_va = 0x401000

-- A difference.
abbrev pub diff : ℕ → ℕ → ℤ
diff a b = if leb b a then pos (a - b) else negsuc (b - a - 1)

-- One loop over a table of relocations.
unfoldable pub patch : (Fix → Bytes) → List Fix → Bytes → Bytes
patch value [] bytes = bytes
patch value (f ∷ fixes) bytes = patch value fixes (overwrite f.at (value f) bytes)

-- A label is not negative here.
abbrev pub code_value : X → Fix → Bytes
code_value x f =
    e32 (if ltb f.target x.nlabels then diff (x.label_pos f.target) (f.at + 4) else pos 0)

abbrev pub data_off : ℕ → ℕ
data_off text_len = (xv_code_off + text_len + xv_page - 1) / xv_page * xv_page

abbrev pub data_va : ℕ → ℕ
data_va text_len = xv_base + data_off text_len

abbrev pub data_value : ℕ → Fix → Bytes
data_value va f = e32 (diff (va + f.target) (xv_code_va + f.at + 4))

abbrev pub pointer_value : ℕ → Fix → Bytes
pointer_value va f = le8 ((va + f.target) % 18446744073709551616)

-- `x.code.len` is not changed by the first loop.
unfoldable pub link : X → X
link x =
    let va = data_va (length x.code) in
    record x {
      code = patch (data_value va) x.dfix (patch (code_value x) x.cfix x.code);
      data_buf = patch (pointer_value va) x.gdfix x.data_buf;
    }
