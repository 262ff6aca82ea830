-- ===== src/X86/Elf.antt =====
-- The image that `write_elf` of src/x86.c builds, before it goes to the file: a buffer of zeros and
-- the writes into it, in the source's order. An empty write, which the source leaves out, changes
-- nothing.
pub mod Layout
mod Tests
use lu_language.Prelude.{
  ℕ, ◌+◌, ◌/◌, ◌%◌, Bytes, List, [], ◌∷◌, ◌++◌, length, replicate, ◌==◌, if◌then◌else◌,
}
use lu_language.X86.Word.{le4, le8}
use lu_language.X86.Buffer.{overwrite}
use lu_language.X86.Link.{xv_page, xv_base, xv_code_off, xv_code_va, data_off, data_va}

pub record Write : Type 0 where
  pub at : ℕ
  pub bytes : Bytes

abbrev pub write_at : ℕ → Bytes → Write
write_at at bytes = record { at = at; bytes = bytes }

abbrev pub put16 : ℕ → ℕ → Write
put16 at v = write_at at (v % 256 ∷ v / 256 % 256 ∷ [])

abbrev pub put32 : ℕ → ℕ → Write
put32 at v = write_at at (le4 v)

abbrev pub put64 : ℕ → ℕ → Write
put64 at v = write_at at (le8 v)

unfoldable pub fill : List Write → Bytes → Bytes
fill [] img = img
fill (w ∷ writes) img = fill writes (overwrite w.at w.bytes img)

unfoldable pub phdr : ℕ → ℕ → ℕ → ℕ → ℕ → ℕ → ℕ → ℕ → List Write
phdr po type flags off vaddr filesz memsz align =
    put32 po type
    ∷ put32 (po + 4) flags
    ∷ put64 (po + 8) off
    ∷ put64 (po + 16) vaddr
    ∷ put64 (po + 24) vaddr
    ∷ put64 (po + 32) filesz
    ∷ put64 (po + 40) memsz
    ∷ put64 (po + 48) align
    ∷ []

abbrev pub data_len : Bytes → ℕ
data_len bytes = if length bytes == 0 then 8 else length bytes

unfoldable pub ehdr : ℕ → List Write
ehdr entry_off =
    write_at 0 (0x7F ∷ b'E' ∷ b'L' ∷ b'F' ∷ 2 ∷ 1 ∷ 1 ∷ [])
    ∷ put16 16 2
    ∷ put16 18 0x3E
    ∷ put32 20 1
    ∷ put64 24 (xv_code_va + entry_off)
    ∷ put64 32 64
    ∷ put64 40 0
    ∷ put32 48 0
    ∷ put16 52 64
    ∷ put16 54 56
    ∷ put16 56 3
    ∷ put16 58 0
    ∷ put16 60 0
    ∷ put16 62 0
    ∷ []

unfoldable pub elf_writes : Bytes → Bytes → ℕ → List Write
elf_writes code bytes entry_off =
    let text_len = length code in
    ehdr entry_off
    ++ (phdr 64 1 5 0 xv_base (xv_code_off + text_len) (xv_code_off + text_len) xv_page
        ++ (phdr 120 1 6 (data_off text_len) (data_va text_len) (data_len bytes) (data_len bytes)
              xv_page
            ++ (phdr 176 0x6474E551 6 0 0 0 0 16
                ++ (write_at xv_code_off code ∷ write_at (data_off text_len) bytes ∷ []))))

unfoldable pub elf_image : Bytes → Bytes → ℕ → Bytes
elf_image code bytes entry_off =
    fill (elf_writes code bytes entry_off) (replicate (data_off (length code) + data_len bytes) 0)
