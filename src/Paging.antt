-- ===== src/Paging.antt =====
-- src/memory.c from `alloc_page_or_halt` on: page tables of four levels.
pub mod Frames
pub mod Path
pub mod Entries
pub mod Mapping
pub mod Unmapping
pub mod Freeing
pub mod Spaces
pub mod PathsKept
pub mod Regions
pub mod Allocating
mod Tests
use bayos_kernel.Memory.{BitmapAllocator, halted, null, page, allocate_page, free_page}
use bayos_kernel.Common.{
  add64, ℕ, zero, suc, ◌+◌, ◌-◌, ◌*◌, ◌/◌, ◌%◌, ◌^◌, Bool, ◌&&◌, not, Option, none, some, ltb, leb,
  ◌==◌, if◌then◌else◌, ◌>>=◌,
}

-- The free pages, and the 64-bit word at each physical address: the code reads and writes it through the direct map,
-- at a fixed offset.
pub record Tables : Type 0 where
  pub areas : BitmapAllocator
  pub words : ℕ → ℕ

-- `alloc_page_or_halt`: `none` means that the processor is halted.
pub alloc_page_or_halt : BitmapAllocator → Option (ℕ × BitmapAllocator)
alloc_page_or_halt areas = elim (allocate_page areas) [
  | halted ↦ none
  | null ↦ none
  | page frame areas' ↦ if frame == 0 then none else some (frame, areas')
]

-- the bits `PTE_P` and `PTE_PS`, and `PTE_ADDR`
unfoldable pub is_present : ℕ → Bool
is_present word = word % 2 == 1

unfoldable pub is_huge : ℕ → Bool
is_huge word = word / 128 % 2 == 1

unfoldable pub pte_addr : ℕ → ℕ
pte_addr word = word / 0x1000 % 2 ^ 40 * 0x1000

pub pt_index : (va level : ℕ) → ℕ
pt_index va level = va / 2 ^ (12 + 9 * level) % 512

-- `&table[pt_index(va, level)]`
unfoldable pub entry_of : (table va level : ℕ) → ℕ
entry_of table va level = table + 8 * pt_index va level

unfoldable pub set_word : (ℕ → ℕ) → (p word : ℕ) → ℕ → ℕ
set_word words p word a = if a == p then word else words a

unfoldable pub clear_frame : (ℕ → ℕ) → (frame : ℕ) → ℕ → ℕ
clear_frame words frame a = if leb frame a && ltb a (frame + 0x1000) then 0 else words a

-- The block of `map_memory_page` for one of the three upper levels. A frame is page aligned and the
-- flags are below 0x1000, so that `frame | flags` is a sum.
pub ensure_table : (entry flags : ℕ) → Tables → Option Tables
unfolding is_present set_word clear_frame alloc_page_or_halt
ensure_table entry flags s = if is_present (s.words entry) then some s else (do
  (frame, areas) ← alloc_page_or_halt s.areas
  some (record {
    areas = areas;
    words = set_word (clear_frame s.words frame) entry (frame + flags);
  }))

-- The block for the page itself, which is not cleared.
pub ensure_page : (entry flags : ℕ) → Tables → Option Tables
unfolding is_present set_word alloc_page_or_halt
ensure_page entry flags s = if is_present (s.words entry) then some s else (do
  (frame, areas) ← alloc_page_or_halt s.areas
  some (record { areas = areas; words = set_word s.words entry (frame + flags) }))

-- `map_memory_page`, from a level on; the source writes the levels 3 to 0 out.
pub map_levels : (level table virt flags : ℕ) → Tables → Option Tables
unfolding entry_of pt_index ensure_table ensure_page
map_levels zero table virt flags s = ensure_page (entry_of table virt 0) flags s
map_levels (suc level) table virt flags s = do
  s1 ← ensure_table (entry_of table virt (suc level)) flags s
  map_levels level (s1.words (entry_of table virt (suc level)) / 0x1000 * 0x1000) virt flags s1

pub map_memory_page : (cr3 virt flags : ℕ) → Tables → Option Tables
unfolding map_levels
map_memory_page cr3 virt flags s = map_levels 3 cr3 virt flags s

-- `walk`, from a level on: the address of the entry, or `NULL` as `none`.
pub walk_levels : (level table va : ℕ) → (ℕ → ℕ) → Option ℕ
unfolding entry_of pt_index is_present is_huge pte_addr
walk_levels zero table va words = some (entry_of table va 0)
walk_levels (suc level) table va words =
    let word = words (entry_of table va (suc level)) in
    let rest = walk_levels level (pte_addr word) va words in
    if not (is_present word) then none else if is_huge word then none else rest

pub walk : (pml4 va : ℕ) → (ℕ → ℕ) → Option ℕ
unfolding walk_levels
walk pml4 va words = walk_levels 3 pml4 va words

abbrev pub page_round_down : ℕ → ℕ
page_round_down a = a / 0x1000 * 0x1000

-- The body of the loop of `free_region`.
pub free_mapped : (pml4 va : ℕ) → Tables → Tables
unfolding walk set_word is_present pte_addr
free_mapped pml4 va s = elim (walk pml4 va s.words) [
  | none ↦ s
  | some entry ↦
      if is_present (s.words entry)
      then (record {
        areas = free_page s.areas (pte_addr (s.words entry));
        words = set_word s.words entry 0;
      })
      else s
]

unfoldable pub free_loop : (rounds pml4 va stop : ℕ) → Tables → Tables
unfolding free_mapped
free_loop zero pml4 va stop s = s
free_loop (suc rounds) pml4 va stop s =
    let rest = free_loop rounds pml4 (add64 va 0x1000) stop (free_mapped pml4 va s) in
    if ltb va stop then rest else s

-- `free_region`; there is a round for each page, and one that ends the loop. Where `stop` lies in the last page of the address
-- space the source never leaves its loop; the rounds end it here, and the theorems leave this out.
unfoldable pub free_region : (pml4 start stop : ℕ) → Tables → Tables
unfolding free_loop
free_region pml4 start stop s =
    free_loop ((stop - page_round_down start) / 0x1000 + 2) pml4 (page_round_down start) stop s

-- `none` means that the processor is halted, or that the loop does not end: `va` goes round behind the last page.
pub allocate_loop : (rounds cr3 va stop flags : ℕ) → Tables → Option Tables
unfolding map_memory_page
allocate_loop zero cr3 va stop flags s = if ltb va stop then none else some s
allocate_loop (suc rounds) cr3 va stop flags s =
    if ltb va stop
    then (do
      s1 ← map_memory_page cr3 va flags s
      allocate_loop rounds cr3 (add64 va 0x1000) stop flags s1)
    else some s

unfoldable pub allocate_region : (cr3 start stop flags : ℕ) → Tables → Option Tables
unfolding allocate_loop
allocate_region cr3 start stop flags s =
    allocate_loop ((stop - page_round_down start) / 0x1000 + 2) cr3 (page_round_down start) stop
      flags s

-- `memcpy` of a page, word by word. The regions end more than a page below 2 ^ 64.
pub copy_page : (dst src : ℕ) → (ℕ → ℕ) → ℕ → ℕ
copy_page dst src words a =
    if leb dst a && ltb a (dst + 0x1000) then words (src + (a - dst)) else words a

-- The body of the loop of `copy_pages_between_pagetables`: the number of pages that it copies, and the words.
pub copy_mapped : (dst_pml4 src_pml4 va : ℕ) → (ℕ → ℕ) → ℕ × (ℕ → ℕ)
unfolding walk copy_page is_present pte_addr
copy_mapped dst_pml4 src_pml4 va words = elim (walk src_pml4 va words) [
  | none ↦ (0, words)
  | some src ↦ elim (walk dst_pml4 va words) [
    | none ↦ (0, words)
    | some dst ↦
        if is_present (words src) && is_present (words dst)
        then (1, copy_page (pte_addr (words dst)) (pte_addr (words src)) words)
        else (0, words)
  ]
]

pub copy_loop : (rounds dst_pml4 src_pml4 va stop : ℕ) → (ℕ → ℕ) → ℕ × (ℕ → ℕ)
unfolding copy_mapped
copy_loop zero dst_pml4 src_pml4 va stop words = (0, words)
copy_loop (suc rounds) dst_pml4 src_pml4 va stop words =
    let (n, words1) = copy_mapped dst_pml4 src_pml4 va words in
    let (copied, words2) = copy_loop rounds dst_pml4 src_pml4 (add64 va 0x1000) stop words1 in
    if ltb va stop then (n + copied, words2) else (0, words)

pub copy_pages_between_pagetables : (dst_pml4 src_pml4 start len : ℕ) → (ℕ → ℕ) → ℕ × (ℕ → ℕ)
unfolding copy_loop
copy_pages_between_pagetables dst_pml4 src_pml4 start len words =
    copy_loop (len / 0x1000 + 2) dst_pml4 src_pml4 start (add64 start len) words
