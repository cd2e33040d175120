-- ===== src/Startup/Tests.antt =====
-- A machine with three thousand pages, a heap of one free block and programs without segments: its start, and a call
-- of `execve_syscall`.
use bayos_kernel.Paging.Path.{IsPath}
use bayos_kernel.Paging.Allocating.{AllPaths}
use bayos_kernel.Common.{◌==◌, if◌then◌else◌}
use bayos_kernel.Memory.{MemmapEntry, BitmapAllocator, bitmap_allocator_init}
use bayos_kernel.Memory.Init.{IsMemmap, bitmap_allocator_init-Ready}
use bayos_kernel.Memory.Pages.{IsAllocator}
use bayos_kernel.Paging.{Tables, is_present, allocate_region}
use bayos_kernel.Paging.Frames.{AllAligned, free_count, is_free, in_areas}
use bayos_kernel.Paging.Entries.{HasPages}
use bayos_kernel.Paging.Spaces.{IsSpace}
use bayos_kernel.Startup.{heap_start, heap_end, boot_memory, user_stack, enter_ring_3_init}
use bayos_kernel.Startup.Boot.{boot_memory-AllMapped}
use bayos_kernel.Startup.Descriptors.{passed, enter_ring_3_init_lem}
use bayos_kernel.Alloc.{Allocator, Mem, NodeStatus, alloc}
use bayos_kernel.Alloc.Blocks.{IsHeap, free_block}
use bayos_kernel.Elf.{map_elf}
use bayos_kernel.Elf.Image.{e_entry, programs_of}
use bayos_kernel.Paging.{page_round_down}
use bayos_kernel.Paging.Allocating.{IsMapped, AllMapped, After, allocate_region-AllMapped}
use bayos_kernel.Resources.{resource_table_alloc}
use bayos_kernel.Resources.Slots.{cleared}
use bayos_kernel.Sched.{ProcessStatus}
use bayos_kernel.Strings.{Bytes}
use bayos_kernel.Syscalls.{Kernel, get_current_process}
use bayos_kernel.Syscalls.Execs.{Files}
use bayos_kernel.Syscalls.Handler.{Machine, read_syscall, write_syscall}
use bayos_kernel.Threads.{new_process, new_fields}
use bayos_kernel.Common.{◌/◌}
use bayos_kernel.Common.{
  ℕ, ◌+◌, ◌-◌, ◌*◌, ◌<◌, ◌≤◌, ◌≡◌, refl, sym, ◌∙◌, true, false, none, some, List, [], ◌∷◌, arith,
  replicate, some-equal,
}

abbrev entries : List MemmapEntry
entries = record { base = 0x10_0000; length = 3001 * 0x1000; usable = true } ∷ []

abbrev areas : BitmapAllocator
areas =
    record { first_page = 0x10_1000; pages_count = 3000; used = 0; bitmap = replicate 4072 0 } ∷ []

areas_run : bitmap_allocator_init 3 entries ≡ some areas
unfolding bitmap_allocator_init
areas_run = refl

entries-IsMemmap : IsMemmap entries
entries-IsMemmap =
    (record { small = omega arith; below = omega arith; settles = omega arith }, tt, tt)

valid_of : (found b : BitmapAllocator) → found ≡ b → IsAllocator found → IsAllocator b
valid_of found b same valid = rw (sym same) valid

areas-IsAllocator : IsAllocator areas
areas-IsAllocator =
    let (found, run, ready) =
      bitmap_allocator_init-Ready 0 entries (omega arith) entries-IsMemmap in
    valid_of found areas (some-equal found areas (sym run ∙ areas_run)) ready.valid

-- The table at 0x9000 is the one at the top, and is empty.
OnlyTop : (level table : ℕ) → Type 0
OnlyTop level table = (level ≡ 3) × (table ≡ 0x9000)

abbrev empty_table : Tables
empty_table = record { areas = areas; words = λ a. 0 }

empty-HasPages : HasPages (0 + 4 * 512) empty_table
unfolding AllAligned free_count
empty-HasPages = record {
  valid = areas-IsAllocator;
  aligned = (refl, omega arith, omega arith, tt);
  free = omega arith;
}

top_used : is_free areas 0x9000 ≡ false
unfolding is_free in_areas
top_used = ground arith

top-IsSpace : IsSpace OnlyTop empty_table
unfolding OnlyTop is_present
top-IsSpace = record {
  tables = λ l t (a, e). record { aligned = omega (arith, e); used = rw e top_used };
  only = λ l l' t (a, e) (b, e'). omega (arith, a, b);
  down = λ l t a is lo hi p g. absurd (ground (arith, p));
}

top-OnlyTop : OnlyTop 3 0x9000
unfolding OnlyTop
top-OnlyTop = (refl, refl)

-- There is no entry, and so no huge page.
top-IsPath : (va : ℕ) → IsPath 3 0x9000 va empty_table
unfolding IsPath is_present
top-IsPath va = (record { aligned = refl; used = top_used }, (λ p. absurd (ground (arith, p))))

abbrev memory : Mem
memory a = record { size = 0; status = NodeStatus.used; prev = 0; next = 0 }

boot_memory-AllMapped_example :
    (s : Tables) × (al : Allocator) × (m : Mem) × (boot_memory 3 entries 0x9000 (λ a. 0) memory
      ≡ some (s, al, m))
    × IsHeap al m (free_block (0x20_0000 - 0x20) ∷ [])
    × ((a : ℕ) → heap_start ≤ a → a < heap_end → IsMapped 0x9000 (a / 0x1000 * 0x1000) s.words)
    × After OnlyTop 0 empty_table s
boot_memory-AllMapped_example =
    boot_memory-AllMapped OnlyTop 3 entries 0x9000 0 (λ a. 0) memory areas areas_run empty-HasPages
      top-IsSpace top-OnlyTop (unfold AllPaths in λ j l. top-IsPath _)

abbrev arena : Allocator
arena = record { first = 0x1000; addr = 0x1000; size = 0x1000 }

abbrev heap : Mem
heap a = record { size = 0xfe0; status = NodeStatus.free; prev = 0; next = 0 }

heap_behind : Mem
heap_behind = elim (resource_table_alloc arena 128 heap) [ none ↦ heap | some r ↦ r.1 ]

table_run : resource_table_alloc arena 128 heap ≡ some (0x1020, heap_behind)
unfolding resource_table_alloc alloc heap_behind
table_run = refl

-- The bytes in memory are the state of the files.
abbrev files : Files Bytes
files = record {
  vfs_open = λ path flags w. some (0, w);
  vfs_read = λ file buf count w. some (0, w);
  file_at = λ w a. record { path = 0; offset = 0; filesz = 0 };
  bytes = λ w. w;
  set_bytes = λ m w. m;
}

abbrev zeros : Bytes
zeros a = 0

abbrev kernel : Kernel Bytes
kernel = record {
  sched = record {
    process_list = 10;
    current_process = 10;
    procs = λ a. new_process ProcessStatus.running 0 0;
  };
  users = λ a. new_fields 0x9000 0 0x80_0000;
  paging = empty_table;
  tables = λ a. [];
  heap = heap;
  next_pid = 0;
  words = λ a. 0;
  io = zeros;
}

no_programs :
    (s : Tables) → map_elf 0x9000 0x5000 (programs_of 0x5000 zeros) s zeros ≡ some (0, s, zeros)
unfolding map_elf programs_of
no_programs s = refl

region :
    (s1 : Tables) × (allocate_region 0x9000 0x20_0000 0x40_0000 7 empty_table ≡ some s1)
    × AllMapped 0x9000 7 refl (omega arith) (page_round_down 0x20_0000) 0x40_0000 s1.words
    × After OnlyTop 0 empty_table s1
region =
    allocate_region-AllMapped 0x9000 7 refl (omega arith) OnlyTop 0x20_0000 0x40_0000 512 0
      empty_table (omega arith) (omega arith) empty-HasPages top-IsSpace top-OnlyTop
      (unfold AllPaths in λ j l. top-IsPath _)

enter_ring_3_init_lem_example :
    (k' : Kernel Bytes) × (enter_ring_3_init files
        (λ n. none)
        1
        arena
        0x9000
        0x5000
        7
        8
        (cleared 128)
        kernel
      ≡ some (e_entry 0x5000 (user_stack zeros), k'))
    × (get_current_process k' ≡ 10)
    × ((k'.users 10).elf_end ≡ 0)
    × ((e : Machine Bytes) (buf len : ℕ)
        → (read_syscall e 0 buf len k' ≡ passed k' (e.streams.pipe_read 7 buf len k'.io))
          × (write_syscall e 1 buf len k' ≡ passed k' (e.streams.pipe_write 8 buf len k'.io)))
enter_ring_3_init_lem_example =
    enter_ring_3_init_lem files (λ n. none) 0 arena 0x9000 0x5000 7 8 kernel 0 0x1020 region.0
      region.0 heap_behind zeros region.1 (no_programs region.0) table_run (omega arith)

-- The file "a" of 0x800 bytes; its name is at 0x300.
abbrev named : Bytes
named a = if a == 0x300 then b'a' else 0

abbrev file_calls : Files Bytes
file_calls = record files {
  vfs_open = λ path flags w. some (0x6000, w);
  file_at = λ w a. record { path = 0x300; offset = 0; filesz = 0x800 };
}

abbrev caller : Kernel Bytes
caller = record kernel { io = named }
