-- ===== src/Syscalls.antt =====
-- src/syscall.c and include/syscall.h: the calls of user processes.
pub mod Forks
pub mod Execs
pub mod Handler
pub mod Setup
pub mod Selectors
pub mod Exits
pub mod Waits
pub mod Allocates
mod Tests
use bayos_kernel.Alloc.{Allocator, Mem, alloc, free}
use bayos_kernel.Paging.{Tables, map_memory_page, free_region}
use bayos_kernel.Resources.{Resource, Table, resource_remove, resource_table_free}
use bayos_kernel.Sched.{
  ProcessStatus, Sched, mark_current_proc_as_dead, get_proc_from_pid, remove_proc_from_list,
}
use bayos_kernel.Common.{
  ℕ, zero, suc, ◌+◌, ◌-◌, ◌*◌, ◌/◌, ◌%◌, ◌^◌, Bool, true, false, ◌||◌, Option, none, some, ltb, leb,
  ◌==◌, if◌then◌else◌, ℤ, pos, add64, ◌>>=◌,
}

-- The fields of `process` that are not in the record of the scheduler; `resources` is an address.
pub record UserFields : Type 0 where
  pub cr3 : ℕ
  pub kernel_stack : ℕ
  pub resources : ℕ
  pub resources_cap : ℕ
  pub anon_allocate_end : ℕ
  pub elf_end : ℕ

-- The scheduler, the other fields of each process, the pages, the table of resources at each address,
-- the heap, the counter of `get_new_pid`, the words that the calls write for the process, and the pipes and files.
pub record Kernel (W : Type 0) : Type 0 where
  pub sched : Sched
  pub users : ℕ → UserFields
  pub paging : Tables
  pub tables : ℕ → Table
  pub heap : Mem
  pub next_pid : ℕ
  pub words : ℕ → ℕ
  pub io : W

unfoldable pub set_user : {W : Type 0} → Kernel W → (p : ℕ) → UserFields → Kernel W
set_user k p u = record k { users = λ a. if a == p then u else k.users a }

-- `get_current_process`
abbrev pub get_current_process : {W : Type 0} → Kernel W → ℕ
get_current_process k = k.sched.current_process

-- `get_new_pid`; its `printk` is left out.
unfoldable pub get_new_pid : {W : Type 0} → Kernel W → ℕ × Kernel W
get_new_pid k = (k.next_pid, record k { next_pid = (k.next_pid + 1) % 2 ^ 32 })

-- An `int` as a value of 64 bits.
abbrev pub from_int : ℕ → ℕ
from_int n = if ltb n (2 ^ 31) then n else n + (2 ^ 64 - 2 ^ 32)

-- `pages` of `anon_allocate_syscall`: a negative number of pages is no round of the loop.
pub pages_of : (size : ℕ) → ℕ
pages_of size =
    let pages = add64 size 0xfff / 0x1000 % 2 ^ 32 in if ltb pages (2 ^ 31) then pages else 0

-- The loop of `anon_allocate_syscall` for the process `p`; `cr3` is what the register has.
pub anon_loop : {W : Type 0} → (rounds cr3 p : ℕ) → Kernel W → Option (Kernel W)
unfolding set_user
anon_loop zero cr3 p k = some k
anon_loop (suc rounds) cr3 p k = do
  paging ← map_memory_page cr3 (k.users p).anon_allocate_end 7 k.paging
  anon_loop rounds cr3 p (
      set_user (record k { paging = paging }) p
        (record (k.users p) { anon_allocate_end = add64 (k.users p).anon_allocate_end 0x1000 }))

pub anon_allocate_syscall : {W : Type 0} → (cr3 size ptr : ℕ) → Kernel W → Option (ℕ × Kernel W)
unfolding anon_loop pages_of
anon_allocate_syscall cr3 size ptr k = do
  k1 ← anon_loop (pages_of size) cr3 (get_current_process k) k
  some (
    0,
    record k1 {
      words =
          λ a. if a == ptr then (k.users (get_current_process k)).anon_allocate_end else k1.words a;
    },
  )

-- The loop of `exit_syscall` over the table, from index `i` on.
pub remove_all : (rounds i : ℕ) → Table → Table
remove_all zero i t = t
remove_all (suc rounds) i t = remove_all rounds (i + 1) (resource_remove (pos i) t).1

-- The three calls of `free_region` in `exit_syscall`
pub free_regions : UserFields → Tables → Tables
free_regions u s =
    free_region u.cr3 0x800000 u.anon_allocate_end
      (free_region u.cr3 0x400000 u.elf_end (free_region u.cr3 0x200000 0x400000 s))

-- `exit_syscall`, up to the `yield` that it does not come back from.
pub exit_syscall : {W : Type 0} → Allocator → Kernel W → Kernel W
unfolding remove_all free_regions
exit_syscall arena k =
    let u = k.users (get_current_process k) in
    record k {
      tables =
          λ a. if a == u.resources then remove_all u.resources_cap 0 (k.tables a) else k.tables a;
      heap = resource_table_free arena u.resources k.heap;
      paging = free_regions u k.paging;
      sched = mark_current_proc_as_dead k.sched;
    }

abbrev pub is_dead : ProcessStatus → Bool
is_dead ProcessStatus.ready = false
is_dead ProcessStatus.running = false
is_dead ProcessStatus.blocked = false
is_dead ProcessStatus.dead = true

-- The loop of `waitpid_syscall`, on fuel: `yield` gives the state when the process goes on.
pub wait_loop :
    {W : Type 0} → (yield : Kernel W → Kernel W) (fuel c : ℕ) → Kernel W → Option (Kernel W)
wait_loop yield zero c k = none
wait_loop yield (suc fuel) c k =
    let rest = wait_loop yield fuel c (yield k) in
    if is_dead (k.sched.procs c).status then some k else rest

-- `waitpid_syscall`, with the 32 bits of `pid`; `flags` is not used.
pub waitpid_syscall :
    {W : Type 0}
    → (yield : Kernel W → Kernel W) (fuel : ℕ) (arena : Allocator) (pid status : ℕ) → Kernel W
    → Option (ℕ × Kernel W)
unfolding wait_loop
waitpid_syscall yield fuel arena pid status k =
    if status == 0 || pid == 2 ^ 32 - 1 then some (2 ^ 64 - 1, k) else (do
      c ← get_proc_from_pid fuel pid k.sched
      if c == 0 then some (2 ^ 64 - 1, k) else (do
        k1 ← wait_loop yield fuel c k
        sched ← remove_proc_from_list fuel c k1.sched
        some (from_int pid, record k1 { sched = sched; heap = free arena c k1.heap })))
