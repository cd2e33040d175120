-- ===== src/Elf.antt =====
-- src/elf.c and include/elf.h: the loader of programs.
pub mod Image
pub mod Segments
pub mod Programs
pub mod Pages
pub mod Loading
mod Tests
use bayos_kernel.Paging.{Tables, map_memory_page}
use bayos_kernel.Strings.{Bytes, memcpy, memset}
use bayos_kernel.Common.{
  ℕ, zero, suc, ◌+◌, ◌-◌, ◌*◌, ◌/◌, ◌%◌, ◌^◌, Option, some, none, List, [], ◌∷◌, ltb, ◌==◌,
  if◌then◌else◌, add64, ◌>>=◌,
}

-- The fields of `elf_program` that the code reads.
pub record ElfProgram : Type 0 where
  pub p_type : ℕ
  pub p_offset : ℕ
  pub p_vaddr : ℕ
  pub p_filesz : ℕ
  pub p_memsz : ℕ

-- The loop over the pages of a program. The result of the mask is divided as a 64-bit number; `j * 0x1000` is an `int`, and
-- its overflow, from 2 ^ 19 pages on, is left out.
pub map_pages : (rounds j cr3 vaddr : ℕ) → Tables → Option Tables
map_pages zero j cr3 vaddr s = some s
map_pages (suc rounds) j cr3 vaddr s = do
  s1 ← map_memory_page cr3 (vaddr + j * 0x1000) 7 s
  map_pages rounds (j + 1) cr3 vaddr s1

-- The number of pages as an `int`: the loop has no round for one that is negative.
pub page_count : ElfProgram → ℕ
page_count p =
    let pages = add64 p.p_memsz 0xfff / 0x1000 % 2 ^ 32 in if ltb pages (2 ^ 31) then pages else 0

-- The calls of `memcpy` and `memset` for a program; `header` is where the file is in memory. A write to a page that is
-- not mapped is a fault, which the bytes do not show: the theorems are about programs whose pages are all mapped.
pub load_segment : (header : ℕ) → ElfProgram → Bytes → Bytes
load_segment header p m =
    let m1 = memcpy p.p_vaddr (header + p.p_offset) p.p_filesz m in
    if ltb p.p_filesz p.p_memsz
    then memset (p.p_vaddr + p.p_filesz) 0 (p.p_memsz - p.p_filesz) m1
    else m1

-- `highest_address` has 32 bits.
pub raise_highest : (highest : ℕ) → ElfProgram → ℕ
raise_highest highest p =
    let top = add64 p.p_vaddr p.p_memsz in if ltb highest top then top % 2 ^ 32 else highest

-- `map_elf` from a program on; the list has the `e_phnum` records at `e_phoff`.
pub map_programs :
    (highest cr3 header : ℕ) → List ElfProgram → Tables → Bytes → Option (ℕ × Tables × Bytes)
unfolding map_pages page_count load_segment raise_highest
map_programs highest cr3 header [] s m = some (highest, s, m)
map_programs highest cr3 header (p ∷ ps) s m =
    let highest' = if p.p_type == 1 then raise_highest highest p else highest in
    let mapped = if p.p_type == 1 then map_pages (page_count p) 0 cr3 p.p_vaddr s else some s in
    let m' = if p.p_type == 1 then load_segment header p m else m in
    do s' ← mapped; map_programs highest' cr3 header ps s' m'

unfoldable pub map_elf :
    (cr3 header : ℕ) → List ElfProgram → Tables → Bytes → Option (ℕ × Tables × Bytes)
unfolding map_programs
map_elf cr3 header programs s m = map_programs 0 cr3 header programs s m
