-- ===== src/Elf/Image.antt =====
-- The fields of `elf_header` and `elf_program` of include/elf.h, at their bytes in memory.
use bayos_kernel.Elf.{ElfProgram}
use bayos_kernel.Strings.{Bytes}
use bayos_kernel.Common.{ℕ, zero, suc, ◌+◌, ◌*◌, List, [], ◌∷◌}

-- The number in the bytes from `p` on, the lowest one first.
unfoldable pub little : (bytes p : ℕ) → Bytes → ℕ
little zero p m = 0
little (suc bytes) p m = m p + 256 * little bytes (p + 1) m

pub e_entry : (header : ℕ) → Bytes → ℕ
unfolding little
e_entry header m = little 8 (header + 24) m

pub e_phoff : (header : ℕ) → Bytes → ℕ
unfolding little
e_phoff header m = little 8 (header + 32) m

pub e_phnum : (header : ℕ) → Bytes → ℕ
unfolding little
e_phnum header m = little 2 (header + 56) m

pub elf_program_at : (p : ℕ) → Bytes → ElfProgram
unfolding little
elf_program_at p m = record {
  p_type = little 4 p m;
  p_offset = little 8 (p + 8) m;
  p_vaddr = little 8 (p + 16) m;
  p_filesz = little 8 (p + 32) m;
  p_memsz = little 8 (p + 40) m;
}

pub programs_from : (count p : ℕ) → Bytes → List ElfProgram
unfolding elf_program_at
programs_from zero p m = []
programs_from (suc count) p m = elf_program_at p m ∷ programs_from count (p + 56) m

-- `programs[0]` to `programs[e_phnum - 1]` of `map_elf`
unfoldable pub programs_of : (header : ℕ) → Bytes → List ElfProgram
unfolding programs_from e_phnum e_phoff
programs_of header m = programs_from (e_phnum header m) (header + e_phoff header m) m
