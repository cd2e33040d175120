-- ===== src/Syscalls/Tests.antt =====
-- A kernel with the processes 10 and 20, the second of which exits and is waited for, as in src/syscall.c.
use bayos_kernel.Paging.Allocating.{AllPaths}
use bayos_kernel.Paging.Path.{entry_of-within}
use bayos_kernel.Paging.{entry_of}
use bayos_kernel.Paging.Path.{IsPath}
use bayos_kernel.Syscalls.Setup.{Registers, syscall_init}
use bayos_kernel.Syscalls.Selectors.{AreSelectors, ring, is_code, syscall_init-AreSelectors}
use bayos_kernel.Gdt.{gdt_inst}
use bayos_kernel.Syscalls.{Kernel, UserFields, is_dead, from_int, exit_syscall, waitpid_syscall}
use bayos_kernel.Syscalls.Exits.{NoUserPages, exit_syscall_lem}
use bayos_kernel.Syscalls.Waits.{yields, waitpid_syscall-Taken, waitpid_syscall-refused}
use bayos_kernel.Alloc.{Allocator, Mem, NodeStatus, free}
use bayos_kernel.Memory.{Area}
use bayos_kernel.Paging.{is_present, pte_addr}
use bayos_kernel.Paging.Unmapping.{Levels, Cleared}
use bayos_kernel.Resources.{ResourceType}
use bayos_kernel.Resources.Slots.{cleared}
use bayos_kernel.Sched.{Process, ProcessStatus, Sched}
use bayos_kernel.Sched.Chains.{Linked, Without, IsDistinct}
use bayos_kernel.Sched.Lookup.{Listed, HasNone}
use bayos_kernel.Sched.ProcessList.{IsList}
use bayos_kernel.Sched.Removal.{Taken}
use bayos_kernel.Syscalls.{pages_of, anon_allocate_syscall}
use bayos_kernel.Syscalls.Allocates.{Allocated, anon_allocate_syscall-Allocated}
use bayos_kernel.Memory.Bits.{bit_at}
use bayos_kernel.Memory.Areas.{IsArea}
use bayos_kernel.Paging.{is_huge}
use bayos_kernel.Paging.Frames.{AllAligned, free_count, is_free, in_areas}
use bayos_kernel.Paging.Path.{IsTable, pte_addr-small}
use bayos_kernel.Paging.Entries.{HasPages}
use bayos_kernel.Paging.Spaces.{IsSpace}
use bayos_kernel.Common.{sym, ◌/◌}
use bayos_kernel.Common.{
  ℕ, zero, suc, ◌+◌, ◌-◌, ◌*◌, ◌^◌, ◌≤◌, ◌<◌, ◌≡◌, ◌≢◌, refl, some, [], ◌∷◌, arith, ◌==◌,
  if◌then◌else◌, inl, inr, true, false,
}

abbrev arena : Allocator
arena = record { first = 0x1000; addr = 0x1000; size = 0x400 }

abbrev heap : Mem
heap a = record { size = 0x3e0; status = NodeStatus.free; prev = 0; next = 0 }

abbrev area : Area
area = record { first_page = 0x2000; pages_count = 7; used = 1; bitmap = 1 ∷ [] }

abbrev processes : ℕ → Process
processes a = record {
  status = ProcessStatus.ready;
  context = 0;
  next = if a == 10 then 20 else 0;
  wait_next = 0;
  pid = if a == 20 then 5 else 0;
}

abbrev fields : UserFields
fields = record {
  cr3 = 0x9000;
  kernel_stack = 0;
  resources = 500;
  resources_cap = 2;
  anon_allocate_end = 0x80_0000;
  elf_end = 0;
}

-- One page is mapped, at 0x20_0000.
abbrev entries : ℕ → ℕ
entries a =
    if a == 0x9000
    then 0xa001
    else if a == 0xa000
    then 0xb001
    else if a == 0xb008
    then 0xc001
    else if a == 0xc000
    then 0xd001
    else 0

abbrev kernel : Kernel Unit
kernel = record {
  sched = record { process_list = 10; current_process = 20; procs = processes };
  users = λ a. fields;
  paging = record { areas = area ∷ []; words = entries };
  tables = λ a.
      record { kind = ResourceType.pipe; res = 7 }
      ∷ record { kind = ResourceType.empty; res = 0 }
      ∷ [];
  heap = heap;
  next_pid = 6;
  words = λ a. 0;
  io = tt;
}

TableAt : (level table : ℕ) → Type 0
TableAt level table = (level ≤ 3) × (table + level * 0x1000 ≡ 0xc000)

entries-down :
    (l t a : ℕ)
    → TableAt (suc l) t
    → t ≤ a
    → a < t + 0x1000
    → is_present (entries a) ≡ true
    → TableAt l (pte_addr (entries a))
unfolding TableAt is_present pte_addr
entries-down l t a (m, e) lo hi p = ground (arith, m, e, lo, hi, p)

entries-Levels : Levels TableAt entries
unfolding TableAt
entries-Levels = record {
  aligned = λ l t (m, e). omega (arith, e);
  only = λ l l' t (m, e) (m', e'). omega (arith, e, e');
  down = λ l t a i lo hi p g. entries-down l t a i lo hi p;
}

top-TableAt : TableAt 3 0x9000
unfolding TableAt
top-TableAt = (omega arith, omega arith)

exit_syscall_lem_example :
    let k' = exit_syscall arena kernel in
    ((k'.sched.procs 20).status ≡ ProcessStatus.dead)
    × ((a : ℕ) → (k'.sched.procs a).next ≡ (processes a).next)
    × (k'.tables 500 ≡ cleared 2)
    × ((a : ℕ) → a ≢ 500 → k'.tables a ≡ kernel.tables a)
    × NoUserPages TableAt fields k'.paging.words
    × Cleared TableAt entries k'.paging.words
exit_syscall_lem_example =
    exit_syscall_lem TableAt arena kernel entries-Levels top-TableAt refl (omega arith)
      (omega arith)

-- Process 20 dies when process 10 yields.
abbrev after_yield : Kernel Unit → Kernel Unit
after_yield k = record k {
  sched = record k.sched {
    procs = λ a.
        if a == 20
        then record (k.sched.procs a) { status = ProcessStatus.dead }
        else k.sched.procs a;
  };
}

kernel-IsList : IsList kernel.sched (10 ∷ 20 ∷ [])
unfolding Linked IsDistinct Without
kernel-IsList = record {
  linked = (refl, omega arith, (refl, omega arith, refl));
  distinct = ((omega arith, tt), (tt, tt));
}

later-IsList : IsList (yields after_yield 1 kernel).sched (10 ∷ 20 ∷ [])
unfolding Linked IsDistinct Without yields
later-IsList = record {
  linked = (refl, omega arith, (refl, omega arith, refl));
  distinct = ((omega arith, tt), (tt, tt));
}

only_twenty : (a : ℕ) → Listed a (10 ∷ 20 ∷ []) → (processes a).pid ≡ 5 → a ≡ 20
unfolding Listed
only_twenty a l e = ground (arith, e)

twenty-Listed : Listed 20 (10 ∷ 20 ∷ [])
unfolding Listed
twenty-Listed = inr (inl refl)

alive : (i : ℕ) → i < 1 → is_dead ((yields after_yield i kernel).sched.procs 20).status ≡ false
unfolding yields
alive zero h = refl
alive (suc i) h = absurd (omega arith)

dead : is_dead ((yields after_yield 1 kernel).sched.procs 20).status ≡ true
unfolding yields
dead = refl

waitpid_syscall-Taken_example :
    let k1 = yields after_yield 1 kernel in
    (s : Sched) × (waitpid_syscall after_yield 3 arena 5 0x7000 kernel
      ≡ some (from_int 5, record k1 { sched = s; heap = free arena 20 k1.heap }))
    × Taken k1.sched s 20 (10 ∷ 20 ∷ [])
waitpid_syscall-Taken_example =
    waitpid_syscall-Taken after_yield 3 arena 1 5 0x7000 20 kernel (10 ∷ 20 ∷ []) (10 ∷ 20 ∷ [])
      (omega arith) (omega arith) (omega arith) (omega arith) (omega arith) kernel-IsList
      twenty-Listed refl only_twenty alive dead later-IsList

no_9 : HasNone processes 9 (10 ∷ 20 ∷ [])
unfolding HasNone
no_9 = (omega arith, (omega arith, tt))

waitpid_syscall-refused_example :
    waitpid_syscall after_yield 3 arena 9 0x7000 kernel ≡ some (2 ^ 64 - 1, kernel)
waitpid_syscall-refused_example =
    waitpid_syscall-refused after_yield 3 arena 9 0x7000 kernel (10 ∷ 20 ∷ []) (omega arith)
      kernel-IsList (inr (inr no_9))

area-IsArea : IsArea area
unfolding bit_at
area-IsArea = omega arith

kernel-HasPages : HasPages (0 + 4 * pages_of 1) kernel.paging
unfolding AllAligned free_count pages_of
kernel-HasPages = record {
  valid = (area-IsArea, tt, tt);
  aligned = (refl, omega arith, omega arith, tt);
  free = omega arith;
}

outside : (t : ℕ) → 0x9000 ≤ t → is_free (area ∷ []) t ≡ false
unfolding is_free in_areas
outside t h = ground (arith, h)

entries-huge : (a : ℕ) → is_present (entries a) ≡ true → is_huge (entries a) ≡ false
entries-huge a p = unfold is_huge in ground arith

entries-small : (a : ℕ) → entries a < 2 ^ 52
entries-small a = ground arith

entries-next :
    (l t a : ℕ)
    → TableAt (suc l) t
    → t ≤ a
    → a < t + 0x1000
    → is_present (entries a) ≡ true
    → TableAt l (entries a / 0x1000 * 0x1000)
entries-next l t a i lo hi p =
    rw (sym (pte_addr-small (entries a) (entries-small a))) (entries-down l t a i lo hi p)

kernel-IsSpace : IsSpace TableAt kernel.paging
kernel-IsSpace = record {
  tables = λ l t i. at-IsTable l t (unfold TableAt in i);
  only = entries-Levels.only;
  down = λ l t a i lo hi p g. (entries-small a, entries-next l t a i lo hi p);
}
  where
    at-IsTable : (l t : ℕ) → (l ≤ 3) × (t + l * 0x1000 ≡ 0xc000) → IsTable (area ∷ []) t
    at-IsTable l t (m, e) = record {
      aligned = omega (arith, e);
      used = outside t (omega (arith, m, e));
    }

-- None of the entries is of a huge page.
kernel-IsPath : (l t va : ℕ) → TableAt l t → IsPath l t va kernel.paging
unfolding IsPath
kernel-IsPath zero t va i = kernel-IsSpace.tables 0 t i
kernel-IsPath (suc l) t va i = (
  kernel-IsSpace.tables (suc l) t i,
  (λ p.
      let a = entry_of t va (suc l) in
      let within = entry_of-within t va (suc l) in
      let lo = within.0 in
      let hi = within.1 in
      (
        entries-huge a p,
        entries-small a,
        kernel-IsPath l _ va (entries-next l t a i lo (omega (arith, hi)) p),
      )),
)

anon_allocate_syscall-Allocated_example :
    (k' : Kernel Unit) × (anon_allocate_syscall 0x9000 1 0x7000 kernel ≡ some (0, k'))
    × (k'.words 0x7000 ≡ 0x80_0000)
    × (1 ≤ pages_of 1 * 0x1000)
    × (pages_of 1 * 0x1000 < 1 + 0x1000)
    × Allocated 0x9000 20 TableAt (pages_of 1) 0 kernel k'
anon_allocate_syscall-Allocated_example =
    anon_allocate_syscall-Allocated TableAt 0x9000 1 0x7000 0 kernel (omega arith) (omega arith)
      kernel-HasPages kernel-IsSpace top-TableAt
      (unfold AllPaths in λ j l. kernel-IsPath 3 0x9000 _ top-TableAt)

abbrev registers : Registers
registers = record { msr = λ a. 0; cr0 = 0x8000_0011; cr4 = 0x20 }

syscall_init-AreSelectors_example :
    ((syscall_init 0x5000 registers).msr 0xc000_0082 ≡ 0x5000)
    × ((syscall_init 0x5000 registers).msr 0xc000_0080 ≡ 0 / 2 * 2 + 1)
    × AreSelectors ((syscall_init 0x5000 registers).msr 0xc000_0081) gdt_inst
    × (ring gdt_inst.kernel_code ≡ 0)
    × (is_code gdt_inst.kernel_code ≡ 1)
    × (ring gdt_inst.kernel_data ≡ 0)
    × (is_code gdt_inst.kernel_data ≡ 0)
    × (ring gdt_inst.user_code ≡ 3)
    × (is_code gdt_inst.user_code ≡ 1)
    × (ring gdt_inst.user_data ≡ 3)
    × (is_code gdt_inst.user_data ≡ 0)
syscall_init-AreSelectors_example =
    syscall_init-AreSelectors 0x5000 registers (omega arith) (omega arith)
