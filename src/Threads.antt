-- ===== src/Threads.antt =====
-- `sched_init` and `add_process` of src/sched.c: the first process and the other ones of the kernel.
pub mod Frames
pub mod Starts
pub mod Switches
mod Tests
use bayos_kernel.Alloc.{Allocator, alloc}
use bayos_kernel.Interrupts.{Idt, idt_set_descriptor}
use bayos_kernel.Paging.{set_word}
use bayos_kernel.Sched.{Process, ProcessStatus, Sched, insert_process}
use bayos_kernel.Syscalls.{Kernel, UserFields, set_user}
use bayos_kernel.Syscalls.Forks.{process_size}
use bayos_kernel.Common.{
  ℕ, zero, suc, ◌+◌, ◌-◌, ◌*◌, ◌/◌, ◌%◌, ◌^◌, ◌&&◌, Option, none, some, List, [], ◌∷◌, ◌++◌, leb,
  ltb, ◌==◌, if◌then◌else◌, ◌>>=◌,
}

-- `sizeof(cpu_status)`, and where its `iret` is
abbrev pub cpu_status_size : ℕ
cpu_status_size = 160

abbrev pub iret_offset : ℕ
iret_offset = 120

-- The writes to ports that set up the two interrupt controllers; `io_wait` writes to port 0x80.
pub pic_writes : List (ℕ × ℕ)
pic_writes =
    (0x20, 0x11)
    ∷ (0x80, 0)
    ∷ (0xa0, 0x11)
    ∷ (0x80, 0)
    ∷ (0x21, 0x20)
    ∷ (0x80, 0)
    ∷ (0xa1, 0x28)
    ∷ (0x80, 0)
    ∷ (0x21, 0x04)
    ∷ (0x80, 0)
    ∷ (0xa1, 0x02)
    ∷ (0x80, 0)
    ∷ (0x21, 0x01)
    ∷ (0x80, 0)
    ∷ (0xa1, 0x01)
    ∷ (0x80, 0)
    ∷ (0x21, 0xfe)
    ∷ (0x80, 0)
    ∷ (0xa1, 0xff)
    ∷ (0x80, 0)
    ∷ []

-- `divisor`
abbrev pub divisor : ℕ
divisor = 1193182 / 100 % 2 ^ 16

-- The writes that set up the timer.
pub pit_writes : List (ℕ × ℕ)
pit_writes = (0x43, 0x36) ∷ (0x40, divisor % 256) ∷ (0x40, divisor / 256 % 256) ∷ []

-- The record of a process that `memset` has cleared, with three fields of `sched_init` or `add_process`.
unfoldable pub new_process : ProcessStatus → (pid context : ℕ) → Process
new_process status pid context = record {
  status = status;
  context = context;
  next = 0;
  wait_next = 0;
  pid = pid;
}

unfoldable pub put_process : Sched → (p : ℕ) → Process → Sched
put_process s p q = record s { procs = λ a. if a == p then q else s.procs a }

unfoldable pub new_fields : (cr3 kernel_stack anon_allocate_end : ℕ) → UserFields
new_fields cr3 kernel_stack anon_allocate_end = record {
  cr3 = cr3;
  kernel_stack = kernel_stack;
  resources = 0;
  resources_cap = 0;
  anon_allocate_end = anon_allocate_end;
  elf_end = 0;
}

-- `sched_init`: the writes to ports, the interrupt table and the state. The result of `alloc` is not tested.
pub sched_init :
    {W : Type 0}
    → Allocator
    → (timer_int_handler cr3 : ℕ) → Idt
    → Kernel W
    → Option (List (ℕ × ℕ) × Idt × Kernel W)
unfolding pic_writes pit_writes new_process put_process new_fields set_user
sched_init arena timer_int_handler cr3 idt k = do
  (p, heap) ← alloc arena process_size k.heap
  let s = put_process k.sched p (new_process ProcessStatus.running (2 ^ 32 - 1) 0)
  some (
    pic_writes ++ pit_writes,
    idt_set_descriptor idt 0x20 timer_int_handler 0x8e 0,
    set_user (record k { heap = heap; sched = record s { process_list = p; current_process = p } })
        p (new_fields cr3 0 0),
  )

-- The words of a new stack: cleared, with the values that `iretq` takes at its end.
pub stack_words : (stack func : ℕ) → (ℕ → ℕ) → ℕ → ℕ
unfolding set_word
stack_words stack func words =
    let iret = stack + 0x2000 - cpu_status_size + iret_offset in
    let w0 : ℕ → ℕ = λ a. if leb stack a && ltb a (stack + 0x2000) then 0 else words a in
    let w1 = set_word w0 iret func in
    let w2 = set_word w1 (iret + 8) 0x8 in
    let w3 = set_word w2 (iret + 16) 0x202 in
    let w4 = set_word w3 (iret + 24) (stack + 0x2000 - 0x10) in set_word w4 (iret + 32) 0x10

-- `add_process`, which does not test the results of `alloc` either.
pub add_process :
    {W : Type 0} → (fuel : ℕ) → Allocator → (cr3 func : ℕ) → Kernel W → Option (Kernel W)
unfolding stack_words new_process put_process new_fields set_user
add_process fuel arena cr3 func k = do
  (p, heap) ← alloc arena process_size k.heap
  (stack, heap2) ← alloc arena 0x2000 heap
  let context = stack + 0x2000 - cpu_status_size
  sched ← insert_process fuel p (put_process k.sched p (new_process ProcessStatus.ready 0 context))
  some (
      set_user (record k { heap = heap2; sched = sched; words = stack_words stack func k.words }) p
        (new_fields cr3 stack 0x800000))
