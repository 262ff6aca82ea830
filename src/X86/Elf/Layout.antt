-- ===== src/X86/Elf/Layout.antt =====
-- The image of src/x86.c: no write into it disturbs another.
use mathlib.Core.List.{Memᴰ}
use lu_language.Prelude.{
  ℕ, zero, suc, ◌+◌, ◌%◌, ◌≤◌, Bytes, List, [], ◌∷◌, length, replicate, ◌==◌, ◌≡◌, refl, ap, ◌∙◌,
  inl, inr, Bool-cases, arith,
}
use lu_language.X86.Word.{le8}
use lu_language.X86.Buffer.{
  overwrite, region, length-overwrite, region-overwrite_same, region-overwrite-Apart,
}
use lu_language.X86.Link.{data_off}
use lu_language.X86.Elf.{Write, fill, phdr, ehdr, data_len, elf_writes, elf_image}

-- Writes in rising order, without overlap, up to an offset.
abbrev pub Ascending : ℕ → List Write → ℕ → Type 0
Ascending low [] high = low ≤ high
Ascending low (w ∷ writes) high = (low ≤ w.at) × Ascending (w.at + length w.bytes) writes high

Ascending-le : (low high : ℕ) (writes : List Write) → Ascending low writes high → low ≤ high
Ascending-le low high [] h = h
Ascending-le low high (w ∷ writes) h =
    omega (arith, h.0, Ascending-le (w.at + length w.bytes) high writes h.1)

-- Writes further on leave the bytes before them.
region-fill_before :
    (p n low : ℕ) (writes : List Write) (img : Bytes)
    → p + n ≤ low
    → Ascending low writes (length img)
    → region p n (fill writes img) ≡ region p n img
unfolding fill
region-fill_before p n low [] img b h = refl
region-fill_before p n low (w ∷ writes) img b h =
    let fits : w.at + length w.bytes ≤ length img =
      Ascending-le (w.at + length w.bytes) (length img) writes h.1 in
    let same = length-overwrite w.at w.bytes img fits in
    region-fill_before p n (w.at + length w.bytes) writes (overwrite w.at w.bytes img)
      (omega (arith, b, h.0)) (rw same h.1)
    ∙ region-overwrite-Apart p n w.at w.bytes img (inl (omega (arith, b, h.0))) fits

region-fill_head :
    (w : Write) (low : ℕ) (writes : List Write) (img : Bytes)
    → Ascending low (w ∷ writes) (length img)
    → region w.at (length w.bytes) (fill (w ∷ writes) img) ≡ w.bytes
unfolding fill
region-fill_head w low writes img h =
    let fits : w.at + length w.bytes ≤ length img =
      Ascending-le (w.at + length w.bytes) (length img) writes h.1 in
    let same = length-overwrite w.at w.bytes img fits in
    region-fill_before w.at (length w.bytes) (w.at + length w.bytes) writes
      (overwrite w.at w.bytes img) (omega arith) (rw same h.1)
    ∙ region-overwrite_same w.at w.bytes img fits

region-fill :
    (w : Write) (low : ℕ) (writes : List Write) (img : Bytes)
    → Ascending low writes (length img)
    → Memᴰ w writes
    → region w.at (length w.bytes) (fill writes img) ≡ w.bytes
unfolding fill
region-fill w low [] img h m = elim m [ ]
region-fill w low (v ∷ writes) img h (Memᴰ.head e) = rw e (region-fill_head v low writes img h)
region-fill w low (v ∷ writes) img h (Memᴰ.tail m) =
    let fits : v.at + length v.bytes ≤ length img =
      Ascending-le (v.at + length v.bytes) (length img) writes h.1 in
    let same = length-overwrite v.at v.bytes img fits in
    region-fill w (v.at + length v.bytes) writes (overwrite v.at v.bytes img) (rw same h.1) m

length-replicate : (n : ℕ) → length {A = ℕ} (replicate n 0) ≡ n
length-replicate zero = refl
length-replicate (suc n) = ap suc (length-replicate n)

length-data_len : (bytes : Bytes) → length bytes ≤ data_len bytes
length-data_len bytes = elim (Bool-cases (length bytes == 0)) [
  | inl e ↦ rw e (ground arith)
  | inr e ↦ rw e (omega arith)
]

elf_writes-Ascending :
    (code bytes : Bytes) (entry : ℕ)
    → Ascending 0 (elf_writes code bytes entry) (data_off (length code) + data_len bytes)
unfolding elf_writes ehdr phdr le8
elf_writes-Ascending code bytes entry = let within = length-data_len bytes in omega (arith, within)

-- Every field of the ELF header and of the three program headers, and the code and the data, stand
-- in the finished image whole, at the offset where they were written; and the data begins on a page
-- of its own behind the code.
pub elf_image-reads :
    (code bytes : Bytes) (entry : ℕ) (w : Write)
    → Memᴰ w (elf_writes code bytes entry)
    → (region w.at (length w.bytes) (elf_image code bytes entry) ≡ w.bytes)
      × ((data_off (length code) % 4096 ≡ 0) × (4096 + length code ≤ data_off (length code)))
unfolding elf_image
elf_image-reads code bytes entry w m =
    let blank : Bytes = replicate (data_off (length code) + data_len bytes) 0 in
    let size : length blank ≡ data_off (length code) + data_len bytes =
      length-replicate (data_off (length code) + data_len bytes) in
    let rising : Ascending 0 (elf_writes code bytes entry) (length blank) =
      rw size (elf_writes-Ascending code bytes entry) in
    (region-fill w 0 (elf_writes code bytes entry) blank rising m, (omega arith, omega arith))
