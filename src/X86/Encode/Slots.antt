-- ===== src/X86/Encode/Slots.antt =====
-- The typed loads and stores of src/x86.c: `i_load_slot` to `i_store_at_rcx`.
use lu_language.Prelude.{ℕ, ℤ, Bytes, ◌||◌, [], ◌∷◌, ◌++◌, ◌==◌, if◌then◌else◌}
use lu_language.X86.Encode.{rex_w, rex_nw, modrm_mem}
use lu_language.X86.Types.{ValueType, is_byte_like, size_of}
use lu_language.X86.Word.{neg}

-- `disp` is the distance below rbp.
unfoldable pub i_load_slot : ℤ → ValueType → Bytes
i_load_slot disp t =
    if is_byte_like t
    then 0x0F ∷ 0xB6 ∷ modrm_mem 0 5 (neg disp)
    else if size_of t == 8
    then rex_w 0 5 ∷ 0x8B ∷ modrm_mem 0 5 (neg disp)
    else rex_w 0 5 ∷ 0x63 ∷ modrm_mem 0 5 (neg disp)

unfoldable pub i_store_slot : ℤ → ValueType → Bytes
i_store_slot disp t =
    if is_byte_like t
    then 0x89 ∷ modrm_mem 0 5 (neg disp)
    else if size_of t == 8
    then rex_w 0 5 ∷ 0x89 ∷ modrm_mem 0 5 (neg disp)
    else 0x89 ∷ modrm_mem 0 5 (neg disp)

unfoldable pub i_store_slot_reg : ℤ → ValueType → ℕ → Bytes
i_store_slot_reg disp t reg =
    if is_byte_like t || size_of t == 4
    then rex_nw reg 5 ++ (0x89 ∷ modrm_mem reg 5 (neg disp))
    else rex_w reg 5 ∷ 0x89 ∷ modrm_mem reg 5 (neg disp)

unfoldable pub i_load_slot_reg : ℕ → ℤ → ValueType → Bytes
i_load_slot_reg reg disp t =
    if is_byte_like t
    then rex_nw reg 5 ++ (0x0F ∷ 0xB6 ∷ modrm_mem reg 5 (neg disp))
    else if size_of t == 8
    then rex_w reg 5 ∷ 0x8B ∷ modrm_mem reg 5 (neg disp)
    else rex_w reg 5 ∷ 0x63 ∷ modrm_mem reg 5 (neg disp)

unfoldable pub i_load_at_rax : ValueType → Bytes
i_load_at_rax t =
    if is_byte_like t
    then 0x0F ∷ 0xB6 ∷ 0x00 ∷ []
    else if size_of t == 8
    then 0x48 ∷ 0x8B ∷ 0x00 ∷ []
    else 0x48 ∷ 0x63 ∷ 0x00 ∷ []

unfoldable pub i_store_at_rcx : ValueType → Bytes
i_store_at_rcx t =
    if is_byte_like t
    then 0x88 ∷ 0x01 ∷ []
    else if size_of t == 8
    then 0x48 ∷ 0x89 ∷ 0x01 ∷ []
    else 0x89 ∷ 0x01 ∷ []
