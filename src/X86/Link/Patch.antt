-- ===== src/X86/Link/Patch.antt =====
-- The tables of relocations of src/x86.c: their slots of four bytes, and the loop over them.
use mathlib.Core.List.{Memᴰ}
use lu_language.Prelude.{
  ℕ, ◌+◌, ◌≤◌, Bytes, List, [], ◌∷◌, ◌++◌, length, All, ◌≡◌, refl, ap, ◌∙◌, sym, inl, arith,
}
use lu_language.X86.Buffer.{
  overwrite, region, Apart, length-overwrite, region-overwrite_same, region-overwrite-Apart,
}
use lu_language.X86.Code.{Fix}
use lu_language.X86.Link.{patch}

-- Slots in rising order, without overlap, between two offsets.
abbrev pub Rising : ℕ → List Fix → ℕ → Type 0
Rising low [] high = low ≤ high
Rising low (f ∷ fixes) high = (low ≤ f.at) × Rising (f.at + 4) fixes high

abbrev pub Inside : ℕ → Fix → Type 0
Inside high f = f.at + 4 ≤ high

abbrev pub Beside : Fix → Fix → Type 0
Beside f g = Apart f.at 4 g.at 4

pub Rising-le : (low high : ℕ) (fixes : List Fix) → Rising low fixes high → low ≤ high
Rising-le low high [] h = h
Rising-le low high (f ∷ fixes) h = omega (arith, h.0, Rising-le (f.at + 4) high fixes h.1)

pub Rising-wider :
    (low high wider : ℕ) (fixes : List Fix)
    → high ≤ wider
    → Rising low fixes high
    → Rising low fixes wider
Rising-wider low high wider [] w h = omega (arith, w, h)
Rising-wider low high wider (f ∷ fixes) w h = (h.0, Rising-wider (f.at + 4) high wider fixes w h.1)

pub Rising-add :
    (low high : ℕ) (fixes : List Fix) (f : Fix)
    → high ≤ f.at
    → Rising low fixes high
    → Rising low (fixes ++ (f ∷ [])) (f.at + 4)
Rising-add low high [] f w h = (omega (arith, w, h), omega arith)
Rising-add low high (g ∷ fixes) f w h = (h.0, Rising-add (g.at + 4) high fixes f w h.1)

pub Rising-Inside :
    (low high : ℕ) (fixes : List Fix) → Rising low fixes high → All (Inside high) fixes
Rising-Inside low high [] h = tt
Rising-Inside low high (f ∷ fixes) h =
    (Rising-le (f.at + 4) high fixes h.1, Rising-Inside (f.at + 4) high fixes h.1)

-- Of rising slots the later ones lie beside an earlier one.
pub Rising-Beside :
    (f : Fix) (low high : ℕ) (fixes : List Fix)
    → f.at + 4 ≤ low
    → Rising low fixes high
    → All (Beside f) fixes
Rising-Beside f low high [] w h = tt
Rising-Beside f low high (g ∷ fixes) w h =
    (inl (omega (arith, w, h.0)), Rising-Beside f (g.at + 4) high fixes (omega (arith, w, h.0)) h.1)

-- The values fill their slots.
module _ (value : Fix → Bytes) (four : (f : Fix) → length (value f) ≡ 4) where
  fits :
      (f : Fix) (bytes : Bytes) → Inside (length bytes) f → f.at + length (value f) ≤ length bytes
  fits f bytes h = omega (arith, four f, h)

  overwrite-Beside :
      (f g : Fix) (bytes : Bytes)
      → Beside f g
      → Inside (length bytes) g
      → region f.at 4 (overwrite g.at (value g) bytes) ≡ region f.at 4 bytes
  overwrite-Beside f g bytes apart inside =
      region-overwrite-Apart f.at 4 g.at (value g) bytes (rw (four g) apart) (fits g bytes inside)

  pub length-patch :
      (fixes : List Fix) (bytes : Bytes)
      → All (Inside (length bytes)) fixes
      → length (patch value fixes bytes) ≡ length bytes
  unfolding patch
  length-patch [] bytes h = refl
  length-patch (f ∷ fixes) bytes h =
      let same = length-overwrite f.at (value f) bytes (fits f bytes h.0) in
      length-patch fixes (overwrite f.at (value f) bytes) (rw same h.1) ∙ same

  pub region-patch-Beside :
      (f : Fix) (fixes : List Fix) (bytes : Bytes)
      → All (Inside (length bytes)) fixes
      → All (Beside f) fixes
      → region f.at 4 (patch value fixes bytes) ≡ region f.at 4 bytes
  unfolding patch
  region-patch-Beside f [] bytes h apart = refl
  region-patch-Beside f (g ∷ fixes) bytes h apart =
      let same = length-overwrite g.at (value g) bytes (fits g bytes h.0) in
      region-patch-Beside f fixes (overwrite g.at (value g) bytes) (rw same h.1) apart.1
      ∙ overwrite-Beside f g bytes apart.0 h.0

  region-patch_head :
      (f : Fix) (low : ℕ) (fixes : List Fix) (bytes : Bytes)
      → Rising low (f ∷ fixes) (length bytes)
      → region f.at 4 (patch value (f ∷ fixes) bytes) ≡ value f
  unfolding patch
  region-patch_head f low fixes bytes h =
      let inside = Rising-le (f.at + 4) (length bytes) fixes h.1 in
      let same = length-overwrite f.at (value f) bytes (fits f bytes inside) in
      region-patch-Beside f fixes (overwrite f.at (value f) bytes)
        (rw same (Rising-Inside (f.at + 4) (length bytes) fixes h.1))
        (Rising-Beside f (f.at + 4) (length bytes) fixes (omega arith) h.1)
      ∙ ap (λ k. region f.at k (overwrite f.at (value f) bytes)) (sym (four f))
      ∙ region-overwrite_same f.at (value f) bytes (fits f bytes inside)

  pub region-patch :
      (f : Fix) (low : ℕ) (fixes : List Fix) (bytes : Bytes)
      → Rising low fixes (length bytes)
      → Memᴰ f fixes
      → region f.at 4 (patch value fixes bytes) ≡ value f
  unfolding patch
  region-patch f low [] bytes h m = elim m [ ]
  region-patch f low (g ∷ fixes) bytes h (Memᴰ.head e) =
      rw e (region-patch_head g low fixes bytes h)
  region-patch f low (g ∷ fixes) bytes h (Memᴰ.tail m) =
      let inside = Rising-le (g.at + 4) (length bytes) fixes h.1 in
      let same = length-overwrite g.at (value g) bytes (fits g bytes inside) in
      region-patch f (g.at + 4) fixes (overwrite g.at (value g) bytes) (rw same h.1) m
