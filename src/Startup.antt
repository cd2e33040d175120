-- ===== src/Startup.antt =====
-- src/main.c: the memory that `_start` sets up, and `enter_ring_3_init`, the first user process.
pub mod Boot
pub mod Descriptors
mod Tests
use bayos_kernel.Alloc.{Allocator, Mem, new_allocator}
use bayos_kernel.Elf.{map_elf}
use bayos_kernel.Elf.Image.{e_entry, programs_of}
use bayos_kernel.Memory.{MemmapEntry, bitmap_allocator_init}
use bayos_kernel.Paging.{Tables, allocate_region}
use bayos_kernel.Resources.{Resource, ResourceType, Table, resource_add, resource_table_alloc}
use bayos_kernel.Sched.{Sched}
use bayos_kernel.Strings.{Bytes, put, memset}
use bayos_kernel.Syscalls.{Kernel, UserFields, set_user, get_current_process, get_new_pid}
use bayos_kernel.Syscalls.Execs.{Files}
use bayos_kernel.Common.{
  ℕ, zero, suc, ◌+◌, ◌-◌, ◌*◌, ◌/◌, ◌%◌, ◌^◌, Option, none, some, List, [], ◌∷◌, ◌==◌,
  if◌then◌else◌, ◌>>=◌,
}

-- The part of the address space for the heap.
abbrev pub heap_start : ℕ
heap_start = 0xffff_ffff_8000_0000 - 0x20_0000

abbrev pub heap_end : ℕ
heap_end = 0xffff_ffff_8000_0000

-- `_start` from `bitmap_allocator_init` to `new_allocator`, with the map of the memory, the tables that the
-- bootloader has left, and what the memory of the heap holds.
pub boot_memory :
    (fuel : ℕ)
    → List MemmapEntry
    → (cr3 : ℕ) → (words : ℕ → ℕ) → Mem
    → Option (Tables × Allocator × Mem)
boot_memory fuel entries cr3 words memory = do
  areas ← bitmap_allocator_init fuel entries
  s ← allocate_region cr3 heap_start heap_end 3 (record { areas = areas; words = words })
  let (al, m) = new_allocator heap_start 0x20_0000 memory
  some (s, al, m)

-- `RESOURCES_INITIAL_CAP`
abbrev pub resources_initial_cap : ℕ
resources_initial_cap = 128

-- A write of 64 bits, the lowest byte first.
pub put_bytes : (rounds p word : ℕ) → Bytes → Bytes
unfolding put
put_bytes zero p word m = m
put_bytes (suc rounds) p word m = put_bytes rounds (p + 1) (word / 256) (put m p (word % 256))

-- The stack of the first user process.
pub user_stack : Bytes → Bytes
unfolding put_bytes
user_stack m = put_bytes 8 0x20_1000 0x20_1000 (memset 0x20_0000 0 0x20_0000 m)

pub set_pid : Sched → (p pid : ℕ) → Sched
set_pid s p pid = record s {
  procs = λ a. if a == p then record (s.procs a) { pid = pid } else s.procs a;
}

-- The table of the first user process, with the two calls of `resource_add`; `fresh` is what its memory holds.
pub user_table :
    (table_alloc : ℕ → Option Table) (fuel keyboard_pipe print_pipe : ℕ)
    → (fresh : Table) → Option Table
user_table table_alloc fuel keyboard_pipe print_pipe fresh = do
  (fd, t1) ←
      resource_add table_alloc fuel (record { kind = ResourceType.pipe; res = keyboard_pipe }) fresh
  (fd, t2) ←
      resource_add table_alloc fuel (record { kind = ResourceType.pipe; res = print_pipe }) t1
  some t2

-- `enter_ring_3_init` up to the instruction that enters the program: its address, and the state. `none` means that
-- the processor is halted, or that the fuel has run out.
pub enter_ring_3_init :
    {W : Type 0}
    → Files W
    → (table_alloc : ℕ → Option Table) (fuel : ℕ) → Allocator
    → (cr3 init_elf keyboard_pipe print_pipe : ℕ) (fresh : Table) → Kernel W
    → Option (ℕ × Kernel W)
unfolding set_user user_stack set_pid user_table
enter_ring_3_init calls table_alloc fuel arena cr3 init_elf keyboard_pipe print_pipe fresh k = do
  let p = get_current_process k
  s1 ← allocate_region cr3 0x20_0000 0x40_0000 7 k.paging
  let m = calls.bytes k.io
  (elf_end, s2, m2) ← map_elf cr3 init_elf (programs_of init_elf m) s1 m
  let (pid, k1) = get_new_pid k
  (resources, heap) ← resource_table_alloc arena resources_initial_cap k1.heap
  if resources == 0 then none else (do
    t ← user_table table_alloc fuel keyboard_pipe print_pipe fresh
    let m3 = user_stack m2
    some (
      e_entry init_elf m3,
      set_user
          (record k1 {
            paging = s2;
            heap = heap;
            sched = set_pid k1.sched p pid;
            tables = λ a. if a == resources then t else k1.tables a;
            io = calls.set_bytes m3 k1.io;
          })
          p
          (record (k1.users p) {
            elf_end = elf_end;
            resources = resources;
            resources_cap = resources_initial_cap;
          }),
    ))
