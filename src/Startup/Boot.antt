-- ===== src/Startup/Boot.antt =====
-- The heap that `_start` of src/main.c sets up is mapped.
use bayos_kernel.Startup.{heap_start, heap_end, boot_memory}
use bayos_kernel.Alloc.{Allocator, Mem, new_allocator}
use bayos_kernel.Alloc.Client.{new_allocator-IsHeap}
use bayos_kernel.Alloc.Blocks.{IsHeap, free_block}
use bayos_kernel.Memory.{MemmapEntry, BitmapAllocator, bitmap_allocator_init}
use bayos_kernel.Paging.{Tables, allocate_region, page_round_down}
use bayos_kernel.Paging.Entries.{HasPages}
use bayos_kernel.Paging.Spaces.{IsSpace}
use bayos_kernel.Paging.Allocating.{IsMapped, AllMapped, AllPaths, After, allocate_region-AllMapped}
use bayos_kernel.Common.{ℕ, ◌+◌, ◌-◌, ◌*◌, ◌/◌, ◌<◌, ◌≤◌, ◌≡◌, refl, some, List, [], ◌∷◌, arith}

boot-run :
    (fuel : ℕ) (entries : List MemmapEntry) (cr3 : ℕ) (words : ℕ → ℕ) (memory : Mem)
    (areas : BitmapAllocator) (s : Tables)
    → bitmap_allocator_init fuel entries ≡ some areas
    → allocate_region cr3 heap_start heap_end 3 (record { areas = areas; words = words }) ≡ some s
    → boot_memory fuel entries cr3 words memory
      ≡ (let (al, m) = new_allocator heap_start 0x20_0000 memory in some (s, al, m))
unfolding boot_memory
boot-run fuel entries cr3 words memory areas s a b = rw (a, b) refl

-- If `bitmap_allocator_init` returns with pages enough, and the tables that the bootloader has left are page tables of four
-- levels in pages that are not free, with no present entry of 2 ^ 52 or above
-- that is not a huge page, and no huge page is on the way to the pages of the heap: `_start` gets a
-- heap of one free block, and every page of the block is mapped; the tables in use stay well formed, none
-- of the entries that were there has changed, and no page in use has become free.
pub boot_memory-AllMapped :
    (T : (level table : ℕ) → Type 0) (fuel : ℕ) (entries : List MemmapEntry) (cr3 n : ℕ)
    (words : ℕ → ℕ) (memory : Mem) (areas : BitmapAllocator)
    → bitmap_allocator_init fuel entries ≡ some areas
    → let s0 : Tables = record { areas = areas; words = words } in
      HasPages (n + 4 * 512) s0
      → IsSpace T s0
      → T 3 cr3
      → AllPaths cr3 (page_round_down heap_start) heap_end s0
      → (s : Tables) × (al : Allocator) × (m : Mem) × (boot_memory fuel entries cr3 words memory
          ≡ some (s, al, m))
        × IsHeap al m (free_block (0x20_0000 - 0x20) ∷ [])
        × ((a : ℕ) → heap_start ≤ a → a < heap_end → IsMapped cr3 (a / 0x1000 * 0x1000) s.words)
        × After T n s0 s
unfolding AllMapped
boot_memory-AllMapped T fuel entries cr3 n words memory areas e has h is free =
    let s0 : Tables = record { areas = areas; words = words } in
    let (s, run, mapped, after) =
      allocate_region-AllMapped cr3 3 refl (omega arith) T heap_start heap_end 512 n s0
        (omega arith) (omega arith) has h is free in
    let (al, m) = new_allocator heap_start 0x20_0000 memory in
    (
      s,
      al,
      m,
      boot-run fuel entries cr3 words memory areas s e run,
      new_allocator-IsHeap heap_start 0x20_0000 memory (omega arith) (omega arith) (omega arith),
      (λ a lo hi.
          let page : a / 0x1000 * 0x1000
              ≡ page_round_down heap_start + (a - heap_start) / 0x1000 * 0x1000 =
            omega (arith, lo) in
          rw page (mapped ((a - heap_start) / 0x1000) (omega (arith, lo, hi)))),
      after,
    )
