-- ===== src/Threads/Tests.antt =====
-- The start of a kernel whose heap is one free block.
use bayos_kernel.Threads.{new_process, sched_init, add_process, pic_writes, pit_writes, divisor}
use bayos_kernel.Threads.Frames.{IsContext}
use bayos_kernel.Threads.Switches.{schedule-add_process}
use bayos_kernel.Alloc.{Allocator, Mem, NodeStatus, alloc}
use bayos_kernel.Interrupts.{Idt, idt_set_descriptor}
use bayos_kernel.Sched.{ProcessStatus, Sched, schedule}
use bayos_kernel.Syscalls.{Kernel}
use bayos_kernel.Syscalls.Forks.{process_size}
use bayos_kernel.Common.{ℕ, ◌+◌, ◌-◌, ◌*◌, ◌≡◌, refl, none, some, [], ◌++◌, arith}

abbrev arena : Allocator
arena = record { first = 0x1000; addr = 0x1000; size = 0x4000 }

abbrev heap : Mem
heap a = record { size = 0x3fe0; status = NodeStatus.free; prev = 0; next = 0 }

heap_behind : (size : ℕ) → Mem → Mem
heap_behind size m = elim (alloc arena size m) [ none ↦ m | some r ↦ r.1 ]

first_alloc : alloc arena process_size heap ≡ some (0x1020, heap_behind process_size heap)
unfolding alloc heap_behind
first_alloc = refl

second_alloc :
    let h1 = heap_behind process_size heap in
    alloc arena process_size h1 ≡ some (0x1098, heap_behind process_size h1)
unfolding alloc heap_behind
second_alloc = refl

third_alloc :
    let h2 = heap_behind process_size (heap_behind process_size heap) in
    alloc arena 0x2000 h2 ≡ some (0x1110, heap_behind 0x2000 h2)
unfolding alloc heap_behind
third_alloc = refl

abbrev kernel : Kernel Unit
kernel = record {
  sched = record {
    process_list = 0;
    current_process = 0;
    procs = λ a. new_process ProcessStatus.dead 0 0;
  };
  users = λ a. record {
    cr3 = 0;
    kernel_stack = 0;
    resources = 0;
    resources_cap = 0;
    anon_allocate_end = 0;
    elf_end = 0;
  };
  paging = record { areas = []; words = λ a. 0 };
  tables = λ a. [];
  heap = heap;
  next_pid = 0;
  words = λ a. 7;
  io = tt;
}

abbrev idt : Idt
idt a = record {
  isr_low = 0;
  kernel_cs = 0;
  ist = 0;
  attr = 0;
  isr_mid = 0;
  isr_high = 0;
  reserved = 0;
}

-- The timer fires every hundredth of a second.
divisor_bytes : divisor ≡ 0x2e * 256 + 0x9b
divisor_bytes = refl

schedule-add_process_example :
    (k1 : Kernel Unit) × (k2 : Kernel Unit) × (s : Sched) × (sched_init arena 0x5000 0x9000 idt
        kernel
      ≡ some (pic_writes ++ pit_writes, idt_set_descriptor idt 0x20 0x5000 0x8e 0, k1))
    × (add_process 4 arena 0x9000 0x6000 k1 ≡ some k2)
    × (schedule 4 0x7000 k2.sched ≡ some (0x1110 + 0x2000 - 160, s))
    × IsContext (0x1110 + 0x2000 - 160) 0x6000 0x8 0x202 (0x1110 + 0x1ff0) 0x10 k2.words
    × (s.current_process ≡ 0x1098)
    × ((s.procs 0x1098).status ≡ ProcessStatus.running)
    × ((s.procs 0x1020).context ≡ 0x7000)
schedule-add_process_example =
    schedule-add_process 4 arena 0x5000 0x9000 0x6000 0x7000 0x1020 0x1098 0x1110 idt
      (heap_behind process_size heap) (heap_behind process_size (heap_behind process_size heap))
      (heap_behind 0x2000 (heap_behind process_size (heap_behind process_size heap))) kernel
      (omega arith) first_alloc second_alloc third_alloc (omega arith) (omega arith) (omega arith)
