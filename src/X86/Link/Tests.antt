-- ===== src/X86/Link/Tests.antt =====
-- A small program, linked: a call of label 0 over a global variable's load and store.
use mathlib.Core.List.{Memᴰ}
use lu_language.Prelude.{◌+◌, ◌-◌, ◌⊎◌, ◌≡◌, refl, pos, true, codes, [], ◌∷◌, length, arith}
use lu_language.X86.Types.{type_i64}
use lu_language.X86.Code.{
  X, emit, new_label, place_label, i_call, branch, add_cfix, add_dfx, add_gdfx, data_operand,
  data_alloc, data_str, data_write,
}
use lu_language.X86.Access.{i_alu_slot_imm, slot_imm}
use lu_language.X86.Link.{link, patch, data_va, xv_code_va}
use lu_language.X86.Link.Steps.{
  IsLinkable, Reach, here, next, emits, makes_label, places, branches, refers, allocates, stores,
  writes, points, start, Reach-IsLinkable,
}
use lu_language.X86.Link.Targets.{destination, destination-branch, destination-data}
use lu_language.X86.Link.Globals.{i_alu_slot_imm-past}

abbrev labelled : X
labelled = (new_label start).1

abbrev called : X
called = i_call 0 labelled

abbrev loaded : X
loaded = data_operand (0x48 ∷ 0x8B ∷ 0x05 ∷ []) 8 called

abbrev program : X
program = emit (0xC3 ∷ []) (place_label 0 loaded)

program-Reach : Reach start program
program-Reach =
    next
      (next
        (next (next (next here (makes_label start)) (branches labelled (0xE8 ∷ []) 0))
          (refers called (0x48 ∷ 0x8B ∷ 0x05 ∷ []) 8))
        (places loaded 0))
      (emits (place_label 0 loaded) (0xC3 ∷ []))

linked :
    (link program).code
    ≡ 0xE8 ∷ 7 ∷ 0 ∷ 0 ∷ 0 ∷ 0x48 ∷ 0x8B ∷ 0x05 ∷ 0xFC ∷ 0x0F ∷ 0 ∷ 0 ∷ 0xC3 ∷ []
unfolding link patch place_label data_operand add_dfx branch add_cfix new_label
linked = refl

-- A call, a global number with the value 1, and a global string.
abbrev numbered : X
numbered = data_write 0 (1 ∷ []) (data_alloc 8 called).1

abbrev texted : X
texted = (data_str (codes "hi") (data_alloc 8 numbered).1).1

abbrev with_globals : X
with_globals = data_operand (0x48 ∷ 0x8D ∷ 0x05 ∷ []) 8 (add_gdfx 8 16 texted)

Reach-IsLinkable_example : IsLinkable with_globals
Reach-IsLinkable_example = Reach-IsLinkable (
    next
      (next
        (next
          (next
            (next
              (next (next (next here (makes_label start)) (branches labelled (0xE8 ∷ []) 0))
                (allocates called 8))
              (writes (data_alloc 8 called).1 0 (1 ∷ [])))
            (allocates numbered 8))
          (stores (data_alloc 8 numbered).1 (codes "hi")))
        (points texted 8 16))
      (refers (add_gdfx 8 16 texted) (0x48 ∷ 0x8D ∷ 0x05 ∷ []) 8))

destination-branch_example : destination 1 5 (link program).code ≡ xv_code_va + program.label_pos 0
unfolding place_label data_operand add_dfx branch add_cfix new_label
destination-branch_example =
    destination-branch program (record { at = 1; target = 0 }) program-Reach (Memᴰ.head refl)
      (omega arith) (omega arith)

destination-data_example :
    destination 8 12 (link program).code ≡ data_va (length program.code) + 8 + 0
unfolding place_label data_operand add_dfx branch add_cfix new_label
destination-data_example =
    destination-data program (record { at = 8; target = 8 }) 0 program-Reach (Memᴰ.head refl)
      (omega arith) (omega arith)

i_alu_slot_imm-past_example :
    (destination
        (length (i_alu_slot_imm true 16 type_i64 0 (pos 5) program).code
          - length (slot_imm type_i64 (pos 5))
          - 4)
        (length (i_alu_slot_imm true 16 type_i64 0 (pos 5) program).code)
        (link (i_alu_slot_imm true 16 type_i64 0 (pos 5) program)).code
      ≡ data_va (length (i_alu_slot_imm true 16 type_i64 0 (pos 5) program).code)
        + 16
        + length (slot_imm type_i64 (pos 5)))
    × ((length (slot_imm type_i64 (pos 5)) ≡ 1) ⊎ (length (slot_imm type_i64 (pos 5)) ≡ 4))
unfolding place_label data_operand add_dfx branch add_cfix new_label
i_alu_slot_imm-past_example =
    i_alu_slot_imm-past program 16 type_i64 program-Reach (omega arith) (omega arith) 0 (pos 5)
