-- ===== src/Semantic/Symbols/Lookup.antt =====
-- What the lookups of src/semantic.c find after `sym_add`, and the shape of the table.
use lu_language.Prelude.{
  or_else, ℕ, ◌≤◌, ℤ, int_eq, Bytes, Bool, true, false, ◌&&◌, [], ◌∷◌, ◌++◌, Option, none, some,
  leb, ltb, length, length-append, length-take, take, if◌then◌else◌, streq, streq_iff, ◌≡◌, refl,
  sym, ap, ◌∙◌, inl, inr, Bool-cases, arith,
}
use lu_language.Semantic.Symbols.{
  Symbol, SymTable, cut_name, cut_type, text_or, new_symbol, sym_add, symbol_named, sym_find,
  sym_find_in_scope,
}

-- The arrays of an entry hold its texts with their NUL, and the table its entries.
pub record Fits (s : Symbol) : Type 0 where
  pub name_fits : length s.name ≤ 127
  pub type_fits : length s.type ≤ 31

abbrev pub AllFit : SymTable → Type 0
AllFit [] = Unit
AllFit (s ∷ st) = Fits s × AllFit st

pub record IsValid (st : SymTable) : Type 0 where
  pub entries_fit : AllFit st
  pub bounded : length st ≤ 4096

or_else_assoc : (a b c : Option Symbol) → or_else (or_else a b) c ≡ or_else a (or_else b c)
or_else_assoc none b c = refl
or_else_assoc (some s) b c = refl

or_else-none : (a : Option Symbol) → or_else a none ≡ a
or_else-none none = refl
or_else-none (some s) = refl

or_else-if :
    (b : Bool) (s : Symbol) (o : Option Symbol)
    → or_else (if b then some s else none) o ≡ (if b then some s else o)
or_else-if true s o = refl
or_else-if false s o = refl

room-ltb : (n : ℕ) → leb 4096 n ≡ false → ltb n 4096 ≡ true
room-ltb n h = ground arith

full-ltb : (n : ℕ) → leb 4096 n ≡ true → ltb n 4096 ≡ false
full-ltb n h = ground arith

pub sym_find-append :
    (st more : SymTable) (name : Bytes)
    → sym_find (st ++ more) name ≡ or_else (sym_find more name) (sym_find st name)
unfolding sym_find
sym_find-append [] more name = sym (or_else-none (sym_find more name))
sym_find-append (s ∷ st) more name =
    ap (λ o. or_else o (symbol_named s name)) (sym_find-append st more name)
    ∙ or_else_assoc (sym_find more name) (sym_find st name) (symbol_named s name)

sym_find_in_scope-append :
    (st more : SymTable) (name : Bytes) (scope : ℤ)
    → sym_find_in_scope (st ++ more) name scope
      ≡ or_else (sym_find_in_scope st name scope) (sym_find_in_scope more name scope)
unfolding sym_find_in_scope
sym_find_in_scope-append [] more name scope = refl
sym_find_in_scope-append (s ∷ st) more name scope =
    ground (arith, sym_find_in_scope-append st more name scope)

AllFit-append : (st : SymTable) (s : Symbol) → AllFit st → Fits s → AllFit (st ++ (s ∷ []))
AllFit-append [] s v f = (f, tt)
AllFit-append (x ∷ st) s v f = (v.0, AllFit-append st s v.1 f)

module _ (st : SymTable) (name type : Option Bytes) (scope : ℤ) (is_ptr is_func is_const : Bool)
    (decl_line : ℕ) where
  abbrev added : Symbol
  added = new_symbol name type scope is_ptr is_func is_const decl_line

  new_symbol-Fits : Fits added
  unfolding new_symbol cut_name cut_type
  new_symbol-Fits =
      let n = length-take 127 (text_or "?" name) in
      let t = length-take 31 (text_or "auto" type) in
      record { name_fits = omega (arith, n); type_fits = omega (arith, t) }

  -- With room in the table the newest entry hides the older ones of its name, of which at most 127
  -- bytes are kept; a full table is searched as before.
  pub sym_find-sym_add :
      (m : Bytes)
      → sym_find (sym_add st name type scope is_ptr is_func is_const decl_line) m ≡ (
          if ltb (length st) 4096 && streq (take 127 (text_or "?" name)) m
          then some (new_symbol name type scope is_ptr is_func is_const decl_line)
          else sym_find st m)
  unfolding sym_add sym_find new_symbol cut_name
  sym_find-sym_add m = elim (Bool-cases (leb 4096 (length st))) [
    | inl full ↦ rw (full, full-ltb (length st) full) refl
    | inr room ↦
        rw (room, room-ltb (length st) room)
          (sym_find-append st (added ∷ []) m ∙ or_else-if _ added (sym_find st m))
  ]

  -- In one scope it is the oldest entry of a name that counts.
  pub sym_find_in_scope-sym_add :
      (m : Bytes) (at : ℤ)
      → sym_find_in_scope (sym_add st name type scope is_ptr is_func is_const decl_line) m at
        ≡ or_else (sym_find_in_scope st m at) (
            if ltb (length st) 4096 && (int_eq scope at && streq (take 127 (text_or "?" name)) m)
            then some (new_symbol name type scope is_ptr is_func is_const decl_line)
            else none)
  unfolding sym_add sym_find_in_scope new_symbol cut_name
  sym_find_in_scope-sym_add m at = elim (Bool-cases (leb 4096 (length st))) [
    | inl full ↦
        rw (full, full-ltb (length st) full) (sym (or_else-none (sym_find_in_scope st m at)))
    | inr room ↦
        rw (room, room-ltb (length st) room) (sym_find_in_scope-append st (added ∷ []) m at)
  ]

  -- Adding keeps every text inside its array and the table inside its own.
  pub sym_add-IsValid :
      IsValid st → IsValid (sym_add st name type scope is_ptr is_func is_const decl_line)
  unfolding sym_add
  sym_add-IsValid v = elim (Bool-cases (leb 4096 (length st))) [
    | inl full ↦ rw full v
    | inr room ↦
        let longer = length-append st (added ∷ []) in
        rw room (record {
          entries_fit = AllFit-append st added v.entries_fit new_symbol-Fits;
          bounded = ground arith;
        })
  ]

symbol_named_long :
    (s : Symbol) (name : Bytes) → Fits s → 128 ≤ length name → symbol_named s name ≡ none
symbol_named_long s name f long = elim (Bool-cases (streq s.name name)) [
  | inl same ↦
      let e = ap (λ t. length t) ((streq_iff s.name name).0 same) in
      let short = f.name_fits in absurd (omega arith)
  | inr other ↦ rw other
]

AllFit-sym_find :
    (st : SymTable) (name : Bytes) → AllFit st → 128 ≤ length name → sym_find st name ≡ none
unfolding sym_find
AllFit-sym_find [] name v long = refl
AllFit-sym_find (s ∷ st) name v long =
    rw (AllFit-sym_find st name v.1 long) (symbol_named_long s name v.0 long)

-- In a valid table no name of 128 bytes or more is ever found.
pub sym_find_long :
    (st : SymTable) (name : Bytes) → IsValid st → 128 ≤ length name → sym_find st name ≡ none
sym_find_long st name v long = AllFit-sym_find st name v.entries_fit long
