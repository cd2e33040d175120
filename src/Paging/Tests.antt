-- ===== src/Paging/Tests.antt =====
-- An empty table and an allocator of six pages: the theorem at them.
use bayos_kernel.Paging.Allocating.{AllPaths}
use bayos_kernel.Paging.Frames.{in_areas}
use bayos_kernel.Paging.{Tables, is_present}
use bayos_kernel.Paging.Frames.{AllAligned, free_count, is_free}
use bayos_kernel.Paging.Path.{IsPath}
use bayos_kernel.Paging.Entries.{HasPages}
use bayos_kernel.Memory.{Area}
use bayos_kernel.Memory.Bits.{bit_at}
use bayos_kernel.Memory.Areas.{IsArea}
use bayos_kernel.Paging.{allocate_region, page_round_down}
use bayos_kernel.Paging.Spaces.{IsSpace}
use bayos_kernel.Paging.Allocating.{AllMapped, After, allocate_region-AllMapped}
use bayos_kernel.Common.{false}
use bayos_kernel.Common.{ℕ, ◌≡◌, refl, some, [], ◌∷◌, arith}

-- the first page is in use, as the table at the top
abbrev area : Area
area = record { first_page = 0x2000; pages_count = 7; used = 1; bitmap = 1 ∷ [] }

abbrev empty_table : Tables
empty_table = record { areas = area ∷ []; words = λ a. 0 }

area-IsArea : IsArea area
unfolding bit_at
area-IsArea = omega arith

enough-HasPages : HasPages 4 empty_table
unfolding AllAligned free_count
enough-HasPages = record {
  valid = (area-IsArea, tt, tt);
  aligned = (refl, omega arith, omega arith, tt);
  free = omega arith;
}

top-IsPath : IsPath 3 0x2000 0x40_0000 empty_table
unfolding IsPath is_present is_free in_areas bit_at
top-IsPath = (record { aligned = refl; used = refl }, λ p. absurd (ground (arith, p)))

OnlyTop : (level table : ℕ) → Type 0
OnlyTop level table = (level ≡ 3) × (table ≡ 0x2000)

used_top : is_free (area ∷ []) 0x2000 ≡ false
unfolding is_free in_areas bit_at
used_top = refl

top-IsSpace : IsSpace OnlyTop empty_table
unfolding OnlyTop is_present
top-IsSpace = record {
  tables = λ l t (a, e). record { aligned = omega (arith, e); used = rw e used_top };
  only = λ l l' t (a, e) (b, e'). omega (arith, a, b);
  down = λ l t a is lo hi p g. absurd (ground (arith, p));
}

top-OnlyTop : OnlyTop 3 0x2000
unfolding OnlyTop
top-OnlyTop = (refl, refl)

-- There is no entry, and so no huge page.
every-IsPath : (va : ℕ) → IsPath 3 0x2000 va empty_table
unfolding IsPath is_present
every-IsPath va = (record { aligned = refl; used = used_top }, (λ p. absurd (ground (arith, p))))

allocate_region-AllMapped_example :
    (s' : Tables) × (allocate_region 0x2000 0x40_0010 0x40_0800 7 empty_table ≡ some s')
    × AllMapped 0x2000 7 refl (omega arith) (page_round_down 0x40_0010) 0x40_0800 s'.words
    × After OnlyTop 0 empty_table s'
allocate_region-AllMapped_example =
    allocate_region-AllMapped 0x2000 7 refl (omega arith) OnlyTop 0x40_0010 0x40_0800 1 0
      empty_table (omega arith) (omega arith) enough-HasPages top-IsSpace top-OnlyTop
      (unfold AllPaths in λ j l. every-IsPath _)
