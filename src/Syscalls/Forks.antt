-- ===== src/Syscalls/Forks.antt =====
-- `fork_syscall` of src/syscall.c, in the two parts that its label `__after_timer` divides.
pub mod Children
pub mod Lists
mod Tests
use bayos_kernel.Syscalls.{Kernel, UserFields, set_user, get_current_process, get_new_pid, from_int}
use bayos_kernel.Alloc.{Allocator, alloc}
use bayos_kernel.Memory.{BitmapAllocator, halted, null, page, allocate_page}
use bayos_kernel.Paging.{Tables, clear_frame, allocate_region, copy_pages_between_pagetables}
use bayos_kernel.Resources.{Table, resource_table_alloc}
use bayos_kernel.Sched.{Process, Procs, Sched, insert_process}
use bayos_kernel.Common.{
  ℕ, zero, suc, ◌+◌, ◌-◌, ◌*◌, ◌/◌, ◌%◌, ◌^◌, Bool, ◌&&◌, ◌||◌, Option, none, some, ltb, leb, ◌==◌,
  if◌then◌else◌, ◌>>=◌,
}

-- `allocate_page` where the caller does not test for `NULL`, which is 0; `none` means that the processor is halted.
pub allocate_unchecked : BitmapAllocator → Option (ℕ × BitmapAllocator)
allocate_unchecked areas = elim (allocate_page areas) [
  | halted ↦ none
  | null ↦ some (0, areas)
  | page frame areas' ↦ some (frame, areas')
]

-- The new table: cleared, and then its upper half that of the table `cr3`.
pub mirror : (new_cr3 cr3 : ℕ) → (ℕ → ℕ) → ℕ → ℕ
unfolding clear_frame
mirror new_cr3 cr3 words a =
    if leb (new_cr3 + 8 * 256) a && ltb a (new_cr3 + 8 * 512)
    then clear_frame words new_cr3 (cr3 + (a - new_cr3))
    else clear_frame words new_cr3 a

-- The address space of the new process, without the contents.
pub fork_space : UserFields → Tables → Option (ℕ × Tables)
unfolding allocate_unchecked mirror
fork_space u s = do
  (new_cr3, areas) ← allocate_unchecked s.areas
  s1 ←
      allocate_region new_cr3 0x200000 u.elf_end 7
        (record { areas = areas; words = mirror new_cr3 u.cr3 s.words })
  s2 ← allocate_region new_cr3 0x800000 u.anon_allocate_end 7 s1
  some (new_cr3, s2)

-- `sizeof(process)`
abbrev pub process_size : ℕ
process_size = 88

-- `memcpy` of a `process`, with the new number.
unfoldable pub copy_process : Procs → (p proc pid : ℕ) → Procs
copy_process m p proc pid a = if a == p then record (m proc) { pid = pid } else m a

-- The fields of the new process that the scheduler does not have.
pub copy_user : UserFields → (new_cr3 resources : ℕ) → UserFields
copy_user u new_cr3 resources = record u { cr3 = new_cr3; resources = resources }

-- The new process `p`, a copy of the current one, with the number, the table of pages and the table of
-- resources of its own.
unfoldable pub with_child : {W : Type 0} → (p new_cr3 resources : ℕ) → Kernel W → Kernel W
unfolding copy_process copy_user get_new_pid set_user
with_child p new_cr3 resources k =
    let proc = get_current_process k in
    let u = k.users proc in
    let (pid, k1) = get_new_pid k in
    set_user
      (record k1 {
        sched = record k.sched { procs = copy_process k.sched.procs p proc pid };
        tables = λ a. if a == resources then k.tables u.resources else k.tables a;
      })
      p (copy_user u new_cr3 resources)

-- `fork_syscall` up to the label: the new table and the new process. The results of `alloc` are not tested; `none` means
-- also a copy to `NULL`, of the process or of a table of resources.
pub fork_start : {W : Type 0} → Allocator → Kernel W → Option (ℕ × ℕ × Kernel W)
unfolding fork_space with_child
fork_start arena k = do
  (new_cr3, paging) ← fork_space (k.users (get_current_process k)) k.paging
  (p, heap) ← alloc arena process_size k.heap
  (resources, heap2) ←
      resource_table_alloc arena (k.users (get_current_process k)).resources_cap heap
  if p == 0 || resources == 0
      then none
      else some
          (new_cr3, p, with_child p new_cr3 resources (record k { paging = paging; heap = heap2 }))

-- The copies of `fork_syscall`, whose last argument the callee takes as a length.
pub fork_copies : UserFields → (new_cr3 : ℕ) → (ℕ → ℕ) → ℕ → ℕ
fork_copies u new_cr3 words =
    let words1 = (copy_pages_between_pagetables new_cr3 u.cr3 0x200000 u.elf_end words).1 in
    (copy_pages_between_pagetables new_cr3 u.cr3 0x800000 u.anon_allocate_end words1).1

pub set_context_of : Sched → (p context : ℕ) → Sched
set_context_of s p context = record s {
  procs = λ a. if a == p then record (s.procs a) { context = context } else s.procs a;
}

-- `fork_syscall` from the label on, in the process that runs it, up to its `yield`: `context` is on the stack
-- of the caller.
pub after_timer : {W : Type 0} → (fuel new_cr3 p context : ℕ) → Kernel W → Option (ℕ × Kernel W)
unfolding fork_copies set_context_of
after_timer fuel new_cr3 p context k =
    let u = k.users (get_current_process k) in
    if u.cr3 == new_cr3 then some (0, k) else (do
      let s = k.paging
      sched ← insert_process fuel p (set_context_of k.sched p context)
      some (
        from_int (sched.procs p).pid,
        record k { paging = record s { words = fork_copies u new_cr3 s.words }; sched = sched },
      ))

-- Both parts, in the parent: the table of the new process, its address, the result and the state.
pub fork_syscall :
    {W : Type 0}
    → (fuel : ℕ) (arena : Allocator) (context : ℕ) → Kernel W
    → Option (ℕ × ℕ × ℕ × Kernel W)
unfolding fork_start after_timer
fork_syscall fuel arena context k = do
  (new_cr3, p, k1) ← fork_start arena k
  (result, k2) ← after_timer fuel new_cr3 p context k1
  some (new_cr3, p, result, k2)
