-- ===== src/Keyboard/Tests.antt =====
-- Keys of the keyboard: tests, and the theorems at them.
use bayos_kernel.Keyboard.{keyboard_process_init, scancode_to_ascii, keyboard_handler}
use bayos_kernel.Keyboard.Handler.{keyboard_handler_lem}
use bayos_kernel.Sched.{ProcessStatus, Procs}
use bayos_kernel.Keyboard.Setup.{Ready, keyboard_process_init-Ready}
use bayos_kernel.Interrupts.{Idt, exceptions_init}
use bayos_kernel.Alloc.{Mem, NodeStatus}
use bayos_kernel.Alloc.{Allocator, alloc}
use bayos_kernel.Common.{none}
use bayos_kernel.Pipe.{pipe_create, Pipe, new_pipe}
use bayos_kernel.Pipe.Runs.{Flow, Flows, created}
use bayos_kernel.Common.{
  ℕ, ◌<◌, ◌+◌, ◌%◌, u64_mod, some, ◌≡◌, ◌⊎◌, refl, false, arith, [], ◌∷◌, is_positive,
}

abbrev key_a : ℕ
key_a = 0x1e

letters : (scancode_to_ascii key_a ≡ b'a') × (scancode_to_ascii 0x9e ≡ 0)
unfolding scancode_to_ascii
letters = (refl, refl)

abbrev running : Procs
running a = record { status = ProcessStatus.running; context = 0; next = 0; wait_next = 0; pid = 1 }

abbrev three : Pipe
three = new_pipe (λ i. 0) 3

keyboard_handler_lem_example :
    ((p' : Pipe) × (m' : Procs) × (ready' : ℕ) × (keyboard_handler key_a three running ≡ (p', m'))
      × Flows 3 p' m' 0 ready' (scancode_to_ascii key_a ∷ []) []
      × Flow 3 p' m' 0 ready' (scancode_to_ascii key_a ∷ []) [])
    ⊎ ((keyboard_handler key_a three running ≡ (three, running))
        × ((scancode_to_ascii key_a ≡ 0) ⊎ (is_positive three.sem_empty.count ≡ false)))
unfolding new_pipe
keyboard_handler_lem_example =
    keyboard_handler_lem key_a three running (λ e. ground (arith, e))
      (created (λ i. 0) (omega arith) (omega arith))

abbrev no_gates : Idt
no_gates a = record {
  isr_low = 0;
  kernel_cs = 0;
  ist = 0;
  attr = 0;
  isr_mid = 0;
  isr_high = 0;
  reserved = 0;
}

abbrev stubs : ℕ → ℕ
stubs a = (0xffff_8000_0000_0000 + a) % u64_mod

abbrev handler : ℕ
handler = 0xffff_8000_0001_0000

stubs_small : (a : ℕ) → stubs a < u64_mod
stubs_small a = omega arith

abbrev blank : Mem
blank a = record { size = 0; prev = 0; next = 0; status = NodeStatus.free }

abbrev arena : Allocator
arena = record { first = 0x1000; addr = 0x1000; size = 0x800 }

abbrev heap : Mem
heap a = record { size = 0x7e0; status = NodeStatus.free; prev = 0; next = 0 }

heap_behind : Mem
heap_behind = elim (pipe_create arena 0x200 heap) [ none ↦ heap | some r ↦ r.1 ]

pipe_run : pipe_create arena 0x200 heap ≡ some ((0x1020, 0x1080, 0x12a0), heap_behind)
unfolding pipe_create alloc heap_behind
pipe_run = refl

keyboard_process_init-Ready_example :
    (idt' : Idt) × (value' : ℕ) × (keyboard_process_init handler
        (exceptions_init stubs no_gates)
        arena
        heap
        0xfe
      ≡ some (idt', (0x1020, 0x1080, 0x12a0), heap_behind, value'))
    × Ready stubs handler 0xfe no_gates idt' value'
keyboard_process_init-Ready_example =
    keyboard_process_init-Ready arena heap heap_behind (0x1020, 0x1080, 0x12a0) stubs handler 0xfe
      no_gates stubs_small (omega arith) pipe_run
