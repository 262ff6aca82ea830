-- ===== src/X86/Elf/Tests.antt =====
-- The image of a program of one byte.
use mathlib.Core.List.{Memᴰ}
use lu_language.Prelude.{◌+◌, ◌%◌, ◌≤◌, [], ◌∷◌, length, ◌≡◌, refl}
use lu_language.X86.Word.{le8}
use lu_language.X86.Buffer.{region}
use lu_language.X86.Link.{data_off}
use lu_language.X86.Elf.{put64, ehdr, elf_writes, elf_image}
use lu_language.X86.Elf.Layout.{elf_image-reads}

-- `e_entry`
entry_field : Memᴰ (put64 24 0x401000) (elf_writes (0xC3 ∷ []) [] 0)
unfolding elf_writes ehdr
entry_field = Memᴰ.tail (Memᴰ.tail (Memᴰ.tail (Memᴰ.tail (Memᴰ.head refl))))

elf_image-reads_example :
    (region 24 (length (le8 0x401000)) (elf_image (0xC3 ∷ []) [] 0) ≡ le8 0x401000)
    × ((data_off 1 % 4096 ≡ 0) × (4096 + 1 ≤ data_off 1))
elf_image-reads_example = elf_image-reads (0xC3 ∷ []) [] 0 (put64 24 0x401000) entry_field
