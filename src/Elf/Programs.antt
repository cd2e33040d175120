-- ===== src/Elf/Programs.antt =====
-- The programs of a file: where they go, and what the loop of src/elf.c makes of the memory.
use bayos_kernel.Elf.{ElfProgram, load_segment, raise_highest}
use bayos_kernel.Elf.Segments.{Apart, load_segment-outside}
use bayos_kernel.Strings.{Bytes}
use bayos_kernel.Common.{
  ℕ, ◌+◌, ◌^◌, ◌≤◌, ◌<◌, ◌≡◌, refl, ◌∙◌, ◌⊎◌, inl, inr, List, [], ◌∷◌, arith, ◌==◌, ==_iff, max,
  if◌then◌else◌, Bool-cases,
}

-- Two programs go to different places.
unfoldable pub Beside : (p q : ElfProgram) → Type 0
Beside p q =
    (p.p_vaddr + max p.p_filesz p.p_memsz ≤ q.p_vaddr)
    ⊎ (q.p_vaddr + max q.p_filesz q.p_memsz ≤ p.p_vaddr)

unfoldable pub AllBeside : ElfProgram → List ElfProgram → Type 0
unfolding Beside
AllBeside p [] = Unit
AllBeside p (q ∷ qs) = (q.p_type ≡ 1 → Beside p q) × AllBeside p qs

-- The programs that are loaded go to places apart from the file and from each other.
unfoldable pub AreApart : (header size : ℕ) → List ElfProgram → Type 0
unfolding AllBeside
AreApart header size [] = Unit
AreApart header size (p ∷ ps) =
    (p.p_type ≡ 1 → Apart header size p × AllBeside p ps) × AreApart header size ps

-- The bytes of the program's part of the file are at its address in `m'`, followed by zeros, and
-- `highest` is not below its end.
pub record IsLoaded (header highest : ℕ) (p : ElfProgram) (m m' : Bytes) : Type 0 where
  pub bytes : (k : ℕ) → k < p.p_filesz → m' (p.p_vaddr + k) ≡ m (header + p.p_offset + k)
  pub zeros : (k : ℕ) → p.p_filesz ≤ k → k < p.p_memsz → m' (p.p_vaddr + k) ≡ 0
  pub top : p.p_vaddr + p.p_memsz ≤ highest

unfoldable pub AreLoaded : (header highest : ℕ) → List ElfProgram → (m m' : Bytes) → Type 0
AreLoaded header highest [] m m' = Unit
AreLoaded header highest (p ∷ ps) m m' =
    (p.p_type ≡ 1 → IsLoaded header highest p m m') × AreLoaded header highest ps m m'

-- What the loop makes of the bytes and of `highest_address`.
unfoldable pub load_all : (header : ℕ) → List ElfProgram → Bytes → Bytes
load_all header [] m = m
load_all header (p ∷ ps) m =
    load_all header ps (if p.p_type == 1 then load_segment header p m else m)

unfoldable pub raise_all : (highest : ℕ) → List ElfProgram → ℕ
raise_all highest [] = highest
raise_all highest (p ∷ ps) =
    raise_all (if p.p_type == 1 then raise_highest highest p else highest) ps

unfoldable pub AllOutside : (a : ℕ) → List ElfProgram → Type 0
AllOutside a [] = Unit
AllOutside a (p ∷ ps) =
    (p.p_type ≡ 1 → (a < p.p_vaddr) ⊎ (p.p_vaddr + max p.p_filesz p.p_memsz ≤ a)) × AllOutside a ps

pub load_all-outside :
    (header size a : ℕ) (ps : List ElfProgram) (m : Bytes)
    → AreApart header size ps
    → AllOutside a ps
    → load_all header ps m a ≡ m a
unfolding load_all AreApart AllOutside
load_all-outside header size a [] m h o = refl
load_all-outside header size a (p ∷ ps) m (f, h) (q, o) = elim (Bool-cases (p.p_type == 1)) [
  | inl t ↦
      let one = (==_iff p.p_type 1).0 t in
      rw t (
        load_all-outside header size a ps (load_segment header p m) h o
        ∙ load_segment-outside header size p m a (f one).0 (q one))
  | inr n ↦ rw n (load_all-outside header size a ps m h o)
]

pub raise_highest-least :
    (highest : ℕ) (p : ElfProgram)
    → p.p_vaddr + p.p_memsz < 2 ^ 32
    → (highest ≤ raise_highest highest p) × (p.p_vaddr + p.p_memsz ≤ raise_highest highest p)
unfolding raise_highest
raise_highest-least highest p h = (ground (arith, h), ground (arith, h))

pub raise_all-least :
    (header size highest : ℕ) (ps : List ElfProgram)
    → AreApart header size ps
    → highest ≤ raise_all highest ps
unfolding raise_all AreApart
raise_all-least header size highest [] h = omega arith
raise_all-least header size highest (p ∷ ps) (f, h) = elim (Bool-cases (p.p_type == 1)) [
  | inl t ↦
      let low = (f ((==_iff p.p_type 1).0 t)).0.low in
      let more = (raise_highest-least highest p (omega (arith, low))).0 in
      let rest = raise_all-least header size (raise_highest highest p) ps h in
      rw t (omega (arith, more, rest))
  | inr n ↦ rw n (raise_all-least header size highest ps h)
]
