-- ===== src/Elf/Segments.antt =====
-- The bytes that src/elf.c writes for one program.
use bayos_kernel.Elf.{ElfProgram, load_segment}
use bayos_kernel.Strings.{Bytes, memcpy}
use bayos_kernel.Strings.Copies.{Copied, block, memcpy-Copied, memset_lem}
use bayos_kernel.Common.{
  ℕ, ◌%◌, ◌+◌, ◌-◌, ◌^◌, ◌≤◌, ◌<◌, ◌≡◌, ap, ◌∙◌, ◌⊎◌, inl, inr, arith, ltb, max, if◌then◌else◌,
  Bool-cases,
}

-- The file has `size` bytes, which hold the bytes of the program, and lies apart from where they go, which starts with a
-- page and ends below 2 ^ 31; the program has no more bytes in the file than in memory.
pub record Apart (header size : ℕ) (p : ElfProgram) : Type 0 where
  pub within : p.p_offset + p.p_filesz ≤ size
  pub apart : (p.p_vaddr + max p.p_filesz p.p_memsz ≤ header) ⊎ (header + size ≤ p.p_vaddr)
  pub low : p.p_vaddr + p.p_memsz < 2 ^ 31
  pub aligned : p.p_vaddr % 0x1000 ≡ 0
  pub fits : p.p_filesz ≤ p.p_memsz

copied_source :
    (header size : ℕ) (p : ElfProgram)
    → Apart header size p
    → (p.p_vaddr < header + p.p_offset) ⊎ (header + p.p_offset + p.p_filesz ≤ p.p_vaddr)
copied_source header size p h = ground (arith, h.apart, h.within)

-- The byte at `a` after both calls.
load_segment-at :
    (header size : ℕ) (p : ElfProgram) (m : Bytes) (a : ℕ)
    → Apart header size p
    → load_segment header p m a ≡ (
        let copied =
          block p.p_vaddr
            (p.p_vaddr + p.p_filesz)
            a
            (m (header + p.p_offset + (a - p.p_vaddr)))
            (m a) in
        if ltb p.p_filesz p.p_memsz
        then block
            (p.p_vaddr + p.p_filesz)
            (p.p_vaddr + p.p_filesz + (p.p_memsz - p.p_filesz))
            a
            0
            copied
        else copied)
unfolding load_segment Copied
load_segment-at header size p m a h =
    let m1 = memcpy p.p_vaddr (header + p.p_offset) p.p_filesz m in
    let copied =
      memcpy-Copied p.p_vaddr (header + p.p_offset) p.p_filesz m (copied_source header size p h)
        a in
    let zeroed = memset_lem (p.p_vaddr + p.p_filesz) 0 (p.p_memsz - p.p_filesz) m1 a in
    elim (Bool-cases (ltb p.p_filesz p.p_memsz)) [
      | inl t ↦ rw t (
          zeroed
          ∙ ap
              (λ b.
                block (p.p_vaddr + p.p_filesz) (p.p_vaddr + p.p_filesz + (p.p_memsz - p.p_filesz)) a
                  0 b)
              copied)
      | inr f ↦ rw f copied
    ]

pub load_segment-outside :
    (header size : ℕ) (p : ElfProgram) (m : Bytes) (a : ℕ)
    → Apart header size p
    → (a < p.p_vaddr) ⊎ (p.p_vaddr + max p.p_filesz p.p_memsz ≤ a)
    → load_segment header p m a ≡ m a
unfolding block
load_segment-outside header size p m a h out =
    load_segment-at header size p m a h ∙ ground (arith, out)

first_part :
    (v f n k src : ℕ) (m : Bytes)
    → k < f
    → (let copied = block v (v + f) (v + k) (m (src + (v + k - v))) (m (v + k)) in
        if ltb f n then block (v + f) (v + f + (n - f)) (v + k) 0 copied else copied)
      ≡ m (src + k)
unfolding block
first_part v f n k src m l = let back : v + k - v ≡ k = omega arith in rw back (ground (arith, l))

pub load_segment-inside :
    (header size : ℕ) (p : ElfProgram) (m : Bytes) (k : ℕ)
    → Apart header size p
    → k < p.p_filesz
    → load_segment header p m (p.p_vaddr + k) ≡ m (header + p.p_offset + k)
unfolding block
load_segment-inside header size p m k h l =
    load_segment-at header size p m (p.p_vaddr + k) h
    ∙ first_part p.p_vaddr p.p_filesz p.p_memsz k (header + p.p_offset) m l

pub load_segment-behind :
    (header size : ℕ) (p : ElfProgram) (m : Bytes) (k : ℕ)
    → Apart header size p
    → p.p_filesz ≤ k
    → k < p.p_memsz
    → load_segment header p m (p.p_vaddr + k) ≡ 0
unfolding block
load_segment-behind header size p m k h l u =
    load_segment-at header size p m (p.p_vaddr + k) h ∙ ground (arith, l, u)
