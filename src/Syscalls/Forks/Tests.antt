-- ===== src/Syscalls/Forks/Tests.antt =====
-- A kernel with two processes, one of which calls `fork_syscall` of src/syscall.c.
use bayos_kernel.Syscalls.{Kernel, UserFields}
use bayos_kernel.Syscalls.Forks.{fork_start, fork_syscall}
use bayos_kernel.Syscalls.Forks.Lists.{fork_syscall-endless}
use bayos_kernel.Alloc.{Allocator, Mem, NodeStatus, alloc}
use bayos_kernel.Memory.{Area, allocate_page}
use bayos_kernel.Paging.{allocate_region}
use bayos_kernel.Resources.{ResourceType, resource_table_alloc}
use bayos_kernel.Sched.{Process, ProcessStatus, insert_process}
use bayos_kernel.Sched.Chains.{Linked, Without, IsDistinct}
use bayos_kernel.Sched.Lookup.{Listed}
use bayos_kernel.Sched.ProcessList.{IsList}
use bayos_kernel.Common.{ℕ, ◌≡◌, refl, none, some, [], ◌∷◌, arith, ◌==◌, if◌then◌else◌, inl, inr}

abbrev arena : Allocator
arena = record { first = 0x1000; addr = 0x1000; size = 0x400 }

abbrev heap : Mem
heap a = record { size = 0x3e0; status = NodeStatus.free; prev = 0; next = 0 }

abbrev area : Area
area = record { first_page = 0x2000; pages_count = 7; used = 1; bitmap = 1 ∷ [] }

-- The processes 10 and 20, in this order.
abbrev processes : ℕ → Process
processes a = record {
  status = ProcessStatus.ready;
  context = 0;
  next = if a == 10 then 20 else 0;
  wait_next = 0;
  pid = 0;
}

abbrev fields : UserFields
fields = record {
  cr3 = 0x9000;
  kernel_stack = 0;
  resources = 500;
  resources_cap = 2;
  anon_allocate_end = 0x80_0000;
  elf_end = 0;
}

abbrev kernel : (running : ℕ) → Kernel Unit
kernel running = record {
  sched = record { process_list = 10; current_process = running; procs = processes };
  users = λ a. fields;
  paging = record { areas = area ∷ []; words = λ a. 0 };
  tables = λ a.
      record { kind = ResourceType.pipe; res = 7 }
      ∷ record { kind = ResourceType.empty; res = 0 }
      ∷ [];
  heap = heap;
  next_pid = 3;
  words = λ a. 0;
  io = tt;
}

-- The state behind `fork_start`.
begun : (running : ℕ) → Kernel Unit
begun running = elim (fork_start arena (kernel running)) [ none ↦ kernel running | some r ↦ r.2 ]

fork_start_10 : fork_start arena (kernel 10) ≡ some (0x3000, 0x1020, begun 10)
unfolding begun fork_start alloc allocate_page allocate_region resource_table_alloc
fork_start_10 = refl

processes-IsList : (running : ℕ) → IsList (kernel running).sched (10 ∷ 20 ∷ [])
unfolding Linked IsDistinct Without
processes-IsList running = record {
  linked = (refl, omega arith, (refl, omega arith, refl));
  distinct = ((omega arith, tt), (tt, tt));
}

child-Without : Without 0x1020 (10 ∷ 20 ∷ [])
unfolding Without
child-Without = (omega arith, (omega arith, tt))

next-Listed : Listed ((kernel 10).sched.procs 10).next (10 ∷ 20 ∷ [])
unfolding Listed
next-Listed = inr (inl refl)

fork_syscall-endless_example :
    (result : ℕ) × (k2 : Kernel Unit) × (fork_syscall 2 arena 0x7000 (kernel 10)
      ≡ some (0x3000, 0x1020, result, k2))
    × ((rounds x : ℕ) → insert_process rounds x k2.sched ≡ none)
fork_syscall-endless_example =
    fork_syscall-endless 2 arena 0x3000 0x1020 0x7000 (kernel 10) (begun 10) 10 (20 ∷ [])
      (omega arith) fork_start_10 child-Without (omega arith) (omega arith) (processes-IsList 10)
      next-Listed
