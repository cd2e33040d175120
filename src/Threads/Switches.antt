-- ===== src/Threads/Switches.antt =====
-- The start of src/sched.c: `sched_init`, `add_process`, and the first interrupt of the timer.
use bayos_kernel.Common.{false}
use bayos_kernel.Threads.{new_process, sched_init, add_process, pic_writes, pit_writes}
use bayos_kernel.Threads.Frames.{IsContext}
use bayos_kernel.Threads.Starts.{add_process-Started, sched_init-IsList}
use bayos_kernel.Alloc.{Allocator, Mem, alloc}
use bayos_kernel.Interrupts.{Idt, idt_set_descriptor}
use bayos_kernel.Sched.{next_of, ProcessStatus, Sched, is_idle, schedule}
use bayos_kernel.Sched.Chains.{Linked, Without}
use bayos_kernel.Sched.ProcessList.{unlinked}
use bayos_kernel.Sched.Next.{schedule-next}
use bayos_kernel.Syscalls.{Kernel, get_current_process}
use bayos_kernel.Syscalls.Forks.{process_size}
use bayos_kernel.Common.{ℕ, ◌+◌, ◌-◌, ◌≤◌, ◌<◌, ◌≡◌, ◌≢◌, sym, ap, ◌∙◌, some, [], ◌∷◌, ◌++◌, arith}

-- When `alloc` gives them memory, `sched_init` and `add_process` return, and then the first `schedule` switches
-- to the new process: it returns the context on the stack of that process, from which `iretq` goes to the function, and
-- saves that of the first process.
pub schedule-add_process :
    {W : Type 0}
    → (fuel : ℕ) (arena : Allocator) (timer_int_handler cr3 func context p q stack : ℕ) (idt : Idt)
      (h1 h2 h3 : Mem) (k : Kernel W)
    → 4 ≤ fuel
    → alloc arena process_size k.heap ≡ some (p, h1)
    → alloc arena process_size h1 ≡ some (q, h2)
    → alloc arena 0x2000 h2 ≡ some (stack, h3)
    → 0 < p
    → 0 < q
    → q ≢ p
    → (k1 : Kernel W) × (k2 : Kernel W) × (s : Sched) × (sched_init arena timer_int_handler cr3 idt
          k
        ≡ some (pic_writes ++ pit_writes, idt_set_descriptor idt 0x20 timer_int_handler 0x8e 0, k1))
      × (add_process fuel arena cr3 func k1 ≡ some k2)
      × (schedule fuel context k2.sched ≡ some (stack + 0x2000 - 160, s))
      × IsContext (stack + 0x2000 - 160) func 0x8 0x202 (stack + 0x1ff0) 0x10 k2.words
      × (s.current_process ≡ q)
      × ((s.procs q).status ≡ ProcessStatus.running)
      × ((s.procs p).context ≡ context)
unfolding Without unlinked new_process
schedule-add_process fuel arena timer cr3 func context p q stack idt h1 h2 h3 k four a b c pos qpos
      ne =
    let (k1, run1, list1, first, proc, fields, heap) =
      sched_init-IsList fuel arena cr3 func k timer p idt h1 a pos in
    let (k2, run2, r) =
      add_process-Started fuel arena cr3 func k1 q stack p h2 h3 [] (omega (arith, four))
        (ap (alloc arena process_size) heap ∙ b) c qpos (ne, tt) list1 in
    let now : get_current_process k2 ≡ p = r.running ∙ first in
    let awake : is_idle (k2.sched.procs q).status ≡ false = ap (λ x. is_idle x.status) r.process in
    let listed : Linked (next_of k2.sched.procs) k2.sched.process_list
        (get_current_process k2 ∷ q ∷ []) =
      rw now r.list.linked in
    let (s, run3, here, running, saved) =
      schedule-next fuel context k2.sched [] [] q (omega (arith, four)) listed (λ e. ne (e ∙ now))
        awake in
    (
      k1,
      k2,
      s,
      run1,
      run2,
      run3 ∙ ap (λ x. some (x.context, s)) r.process,
      r.context,
      here,
      running,
      ap (λ x. (s.procs x).context) (sym now) ∙ saved,
    )
