-- ===== src/Memory.antt =====
-- src/memory.c and include/memory.h: the bitmap allocator of physical pages.
pub mod Bits
pub mod Areas
pub mod Find
pub mod HeaderPages
pub mod Init
pub mod PageBits
pub mod Pages
pub mod Release
mod Tests
use Bits.{bit_at, set_bit, clear_bit}
use mathlib.Core.Option
use bayos_kernel.Common.{
  ◌>>=◌, ℕ, zero, suc, ◌+◌, ◌-◌, ◌*◌, ◌/◌, ◌%◌, ◌^◌, Bool, ◌&&◌, ◌||◌, Option, none, some, List, [],
  ◌∷◌, ltb, leb, ◌==◌, if◌then◌else◌, add64, sub64, replicate, set, get_or, length,
}

-- One of the `areas` of `bitmap_allocator`: `bitmap` is its `data[]`. Addresses are physical.
pub record Area : Type 0 where
  pub first_page : ℕ
  pub pages_count : ℕ
  pub used : ℕ
  pub bitmap : List ℕ

-- `bitmap_allocator`: the first `areas_count` of `areas`.
abbrev pub BitmapAllocator : Type 0
BitmapAllocator = List Area

abbrev pub page_size : ℕ
page_size = 0x1000

-- `OFFSET_OF_DATA_IN_AREA`
abbrev pub offset_of_data : ℕ
offset_of_data = 24

abbrev pub bitmap_bytes_for : ℕ → ℕ
bitmap_bytes_for page_count = add64 page_count 7 / 8

-- One round of the loop of `calc_header_pages`.
abbrev pub next_header_pages : ℕ → ℕ → ℕ
next_header_pages page_count header_pages =
    let needed = add64 offset_of_data (bitmap_bytes_for (sub64 page_count header_pages)) in
    let pages = sub64 (add64 needed 0x1000) 1 / 0x1000 in if pages == 0 then 1 else pages

-- The `do ... while (header_pages != prev)`, on fuel; `none` means that the fuel ran out.
pub header_loop : ℕ → ℕ → ℕ → Option ℕ
header_loop zero page_count prev = none
header_loop (suc fuel) page_count prev =
    let header_pages = next_header_pages page_count prev in
    let rest = header_loop fuel page_count header_pages in
    if header_pages == prev then some header_pages else rest

pub calc_header_pages : ℕ → ℕ → Option ℕ
unfolding header_loop
calc_header_pages fuel page_count = header_loop fuel page_count 1

-- `struct limine_memmap_entry` of the bootloader; `usable` says that its type is usable memory.
pub record MemmapEntry : Type 0 where
  pub base : ℕ
  pub length : ℕ
  pub usable : Bool

-- One entry of the loop of `bitmap_allocator_init`: the header is zeroed, and the rest of its
-- pages behind the record is the bitmap.
pub init_area : ℕ → MemmapEntry → Option Area
unfolding calc_header_pages
init_area fuel entry = do
  header_pages ← calc_header_pages fuel (entry.length / 0x1000)
  some (record {
    first_page = add64 entry.base (header_pages * 0x1000);
    pages_count = sub64 (entry.length / 0x1000) header_pages;
    used = 0;
    bitmap = replicate (header_pages * 0x1000 - offset_of_data) 0;
  })

-- The loop of `bitmap_allocator_init`: `none` means that the fuel of `calc_header_pages` ran out.
unfoldable pub init_areas : ℕ → List MemmapEntry → Option BitmapAllocator
unfolding init_area
init_areas fuel [] = some []
init_areas fuel (entry ∷ entries) =
    let rest = init_areas fuel entries in
    if entry.usable && leb 0x2000 entry.length
    then (do area ← init_area fuel entry; areas ← rest; some (area ∷ areas))
    else rest

-- `bitmap_allocator_init`; `none` means also that it writes behind the end of the 0x100 `areas`, which it does not test.
unfoldable pub bitmap_allocator_init : ℕ → List MemmapEntry → Option BitmapAllocator
unfolding init_areas
bitmap_allocator_init fuel entries = do
  areas ← init_areas fuel entries
  if ltb 0x100 (length areas) then none else some areas

-- The bits of one byte, from bit `j` on with `rounds` to go; `page` is `i * 8`.
pub data BitScan : Type 0 where
  hit : ℕ → BitScan
  past : BitScan
  full : BitScan

pub scan_bits : (rounds j page page_count byte : ℕ) → BitScan
unfolding bit_at
scan_bits zero j page page_count byte = full
scan_bits (suc rounds) j page page_count byte =
    let rest = scan_bits rounds (j + 1) page page_count byte in
    if leb page_count (page + j) then past else if bit_at byte j then rest else hit j

-- The bytes from byte `i` on; `page` is `i * 8`. The result is the index and the bitmap with its
-- bit set. The end of the list, a read behind the bitmap, is ruled out by the invariant.
pub scan_bytes : (rounds page page_count : ℕ) → List ℕ → Option (ℕ × List ℕ)
unfolding scan_bits set_bit
scan_bytes zero page page_count bytes = none
scan_bytes (suc rounds) page page_count [] = none
scan_bytes (suc rounds) page page_count (byte ∷ bytes) =
    let rest = scan_bytes rounds (page + 8) page_count bytes in
    elim (scan_bits 8 0 page page_count byte) [
      | hit j ↦ some (page + j, set_bit byte j ∷ bytes)
      | past ↦ none
      | full ↦ Option.map (λ r. (r.0, byte ∷ r.1)) rest
    ]

-- `find_unused_page` past its guard; `none` is -1. The bitmap of an area is never `NULL`.
pub find_unused_page : ℕ → List ℕ → Option (ℕ × List ℕ)
unfolding scan_bytes
find_unused_page page_count bitmap = scan_bytes (bitmap_bytes_for page_count) 0 page_count bitmap

-- `cli; hlt`, `NULL`, or a physical page with the new state
pub data Page : Type 0 where
  halted : Page
  null : Page
  page : ℕ → BitmapAllocator → Page

abbrev pub behind : Area → Page → Page
behind a halted = halted
behind a null = null
behind a (page p areas) = page p (a ∷ areas)

-- The body of the loop of `allocate_page` for an area that is not full, with the guard of
-- `find_unused_page`.
pub allocate_in : Area → BitmapAllocator → Page
unfolding find_unused_page
allocate_in a areas =
    let found : Page = elim (find_unused_page a.pages_count a.bitmap) [
      | none ↦ halted
      | some (index, bitmap) ↦
          if leb a.pages_count index
          then halted
          else page (add64 a.first_page (index * 0x1000))
              (record a { used = add64 a.used 1; bitmap = bitmap } ∷ areas)
    ] in
    if a.pages_count == 0 || ltb 1_000_000 a.pages_count then halted else found

unfoldable pub allocate_page : BitmapAllocator → Page
unfolding allocate_in
allocate_page [] = null
allocate_page (a ∷ areas) =
    let rest = allocate_page areas in
    if leb a.pages_count a.used then behind a rest else allocate_in a areas

-- `data[index / 8] &= ~(1 << index % 8)`; a byte behind the list is not the bitmap's.
pub clear_page : List ℕ → ℕ → List ℕ
unfolding clear_bit
clear_page bitmap index =
    set bitmap (index / 8) (clear_bit (get_or bitmap (index / 8) 0) (index % 8))

pub free_page : BitmapAllocator → ℕ → BitmapAllocator
unfolding clear_page
free_page [] p = []
free_page (a ∷ areas) p =
    let rest = free_page areas p in
    if leb a.first_page p && ltb p (add64 a.first_page (a.pages_count * 0x1000))
    then record a {
      used = sub64 a.used 1;
      bitmap = clear_page a.bitmap ((p - a.first_page) / 0x1000);
    }
      ∷ areas
    else a ∷ rest
