-- ===== src/Elf/Tests.antt =====
-- A file with one program: the theorem at it.
use bayos_kernel.Paging.Path.{IsPath}
use bayos_kernel.Elf.Loading.{AreFree}
use bayos_kernel.Elf.{ElfProgram, map_elf}
use bayos_kernel.Elf.Programs.{AreApart, AreLoaded}
use bayos_kernel.Elf.Loading.{AreMapped, AreFree, map_elf-AreLoaded}
use bayos_kernel.Elf.Pages.{all_pages}
use bayos_kernel.Paging.{is_present}
use bayos_kernel.Paging.Frames.{in_areas, AllAligned, free_count, is_free}
use bayos_kernel.Paging.Entries.{HasPages}
use bayos_kernel.Paging.Spaces.{IsSpace}
use bayos_kernel.Paging.Allocating.{After}
use bayos_kernel.Memory.Bits.{bit_at}
use bayos_kernel.Memory.Areas.{IsArea}
use bayos_kernel.Common.{◌+◌, ◌*◌, refl, false}
use bayos_kernel.Memory.{Area}
use bayos_kernel.Paging.{Tables}
use bayos_kernel.Strings.{Bytes}
use bayos_kernel.Common.{ℕ, ◌≡◌, inr, some, List, [], ◌∷◌, arith}

abbrev area : Area
area = record { first_page = 0x2000; pages_count = 7; used = 1; bitmap = 1 ∷ [] }

abbrev empty_table : Tables
empty_table = record { areas = area ∷ []; words = λ a. 0 }

-- four bytes and four zeros, from 0x1080 to 0x40_0000
abbrev program : ElfProgram
program = record { p_type = 1; p_offset = 0x80; p_vaddr = 0x40_0000; p_filesz = 4; p_memsz = 8 }

abbrev programs : List ElfProgram
programs = program ∷ []

abbrev file : Bytes
file a = 7

programs-AreApart : AreApart 0x1000 0x100 programs
unfolding AreApart
programs-AreApart = (
  (λ one. (
    record {
      within = omega arith;
      apart = inr (omega arith);
      low = omega arith;
      aligned = omega arith;
      fits = omega arith;
    },
    tt,
  )),
  tt,
)

area-IsArea : IsArea area
unfolding bit_at
area-IsArea = omega arith

enough-HasPages : HasPages (0 + 4 * all_pages programs) empty_table
unfolding AllAligned free_count all_pages
enough-HasPages = record {
  valid = (area-IsArea, tt, tt);
  aligned = (refl, omega arith, omega arith, tt);
  free = omega arith;
}

OnlyTop : (level table : ℕ) → Type 0
OnlyTop level table = (level ≡ 3) × (table ≡ 0x2000)

used_top : is_free (area ∷ []) 0x2000 ≡ false
unfolding is_free in_areas bit_at
used_top = refl

top-IsSpace : IsSpace OnlyTop empty_table
unfolding OnlyTop is_present
top-IsSpace = record {
  tables = λ l t (a, e). record { aligned = omega (arith, e); used = rw e used_top };
  only = λ l l' t (a, e) (b, e'). omega (arith, a, b);
  down = λ l t a is lo hi p g. absurd (ground (arith, p));
}

top-OnlyTop : OnlyTop 3 0x2000
unfolding OnlyTop
top-OnlyTop = (refl, refl)

-- There is no entry, and so no huge page.
top-IsPath : (va : ℕ) → IsPath 3 0x2000 va empty_table
unfolding IsPath is_present
top-IsPath va = (record { aligned = refl; used = used_top }, (λ p. absurd (ground (arith, p))))

programs-AreFree : AreFree 0x2000 programs empty_table
unfolding AreFree
programs-AreFree = ((λ one j l. top-IsPath _), tt)

map_elf-AreLoaded_example :
    (highest : ℕ) × (s' : Tables) × (m' : Bytes) × (map_elf 0x2000 0x1000 programs empty_table file
      ≡ some (highest, s', m'))
    × AreLoaded 0x1000 highest programs file m'
    × AreMapped 0x2000 programs s'.words
    × After OnlyTop 0 empty_table s'
map_elf-AreLoaded_example =
    map_elf-AreLoaded OnlyTop 0x2000 0x1000 0x100 0 programs empty_table file programs-AreApart
      enough-HasPages top-IsSpace top-OnlyTop programs-AreFree
