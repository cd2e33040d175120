-- ===== src/Memory/Tests.antt =====
-- A small allocator and a memory map of two entries: tests, and the theorems at them.
use bayos_kernel.Memory.{bit_at}
use bayos_kernel.Common.{◌≡◌, refl, true, false, none, some, List, [], ◌∷◌, arith}
use bayos_kernel.Memory.{
  Area, BitmapAllocator, page, MemmapEntry, find_unused_page, allocate_page, free_page,
  calc_header_pages, bitmap_allocator_init,
}
use bayos_kernel.Memory.HeaderPages.{calc_header_pages_diverges}
use bayos_kernel.Memory.Bits.{bit_at}
use bayos_kernel.Memory.Areas.{IsArea}
use bayos_kernel.Memory.Pages.{IsAllocator, Outcome, allocate_page-Outcome}
use bayos_kernel.Memory.Init.{Ready, bitmap_allocator_init-Ready}

-- pages 0 and 2 of ten are in use
abbrev low : Area
low = record { first_page = 0x2000; pages_count = 10; used = 2; bitmap = 5 ∷ 0 ∷ [] }

abbrev high : Area
high = record { first_page = 0x10000; pages_count = 2; used = 0; bitmap = 0 ∷ [] }

abbrev areas : BitmapAllocator
areas = low ∷ high ∷ []

low-IsArea : IsArea low
unfolding bit_at
low-IsArea = omega arith

high-IsArea : IsArea high
unfolding bit_at
high-IsArea = omega arith

areas-IsAllocator : IsAllocator areas
areas-IsAllocator = (low-IsArea, omega arith, (high-IsArea, tt, tt))

find_first : find_unused_page 10 (0xff ∷ 1 ∷ []) ≡ some (9, 0xff ∷ 3 ∷ [])
unfolding find_unused_page
find_first = refl

allocates_page_1 :
    allocate_page areas ≡ page 0x3000 (record low { used = 3; bitmap = 7 ∷ 0 ∷ [] } ∷ high ∷ [])
unfolding allocate_page
allocates_page_1 = refl

frees_page_2 : free_page areas 0x4000 ≡ record low { used = 1; bitmap = 1 ∷ 0 ∷ [] } ∷ high ∷ []
unfolding free_page
frees_page_2 = refl

-- 100 MiB, and 5000 pages of 127 MiB
header_pages_run : (calc_header_pages 9 25600 ≡ some 1) × (calc_header_pages 9 40000 ≡ some 2)
unfolding calc_header_pages
header_pages_run = (refl, refl)

calc_header_pages_diverges_example : calc_header_pages 1000 32578 ≡ none
calc_header_pages_diverges_example = calc_header_pages_diverges 1 1000 (omega arith) (omega arith)

allocate_page-Outcome_example : Outcome areas (allocate_page areas)
allocate_page-Outcome_example = allocate_page-Outcome areas areas-IsAllocator

abbrev memmap : List MemmapEntry
memmap =
    record { base = 0x100000; length = 0x10000; usable = true }
    ∷ record { base = 0x200000; length = 0x4000; usable = false }
    ∷ []

bitmap_allocator_init-Ready_example :
    (areas : BitmapAllocator) × (bitmap_allocator_init 3 memmap ≡ some areas) × Ready memmap areas
bitmap_allocator_init-Ready_example =
    bitmap_allocator_init-Ready 0 memmap (omega arith) (omega arith)
