-- ===== src/Keyboard/Setup.antt =====
-- `exceptions_init` of src/interrupts.c and `keyboard_process_init` of src/keyboard.c, one after the other.
use bayos_kernel.Keyboard.{keyboard_process_init}
use bayos_kernel.Alloc.{Allocator, Mem}
use bayos_kernel.Interrupts.{Idt, idt_set_descriptor, exceptions_init}
use bayos_kernel.Interrupts.Table.{Gate, stack_of, idt_set_descriptor-Gate, exceptions_init-Gate}
use bayos_kernel.Pipe.{pipe_create}
use bayos_kernel.Common.{
  ℕ, ◌-◌, ◌/◌, ◌%◌, ◌<◌, ◌≤◌, ◌≡◌, ◌≢◌, refl, ◌∙◌, some, arith, ◌==◌, if◌then◌else◌, u64_mod,
}

setup-run :
    (handler value : ℕ) (idt : Idt) (al : Allocator) (m m' : Mem) (pipe : ℕ × ℕ × ℕ)
    → pipe_create al 0x200 m ≡ some (pipe, m')
    → keyboard_process_init handler idt al m value
      ≡ some (
        idt_set_descriptor idt 0x21 handler 0x8e 0,
        pipe,
        m',
        (if value / 2 % 2 == 1 then value - 2 else value),
      )
unfolding keyboard_process_init
setup-run handler value idt al m m' pipe e = rw e refl

-- The interrupt table and the mask of the interrupt lines, when the keyboard is set up.
pub record Ready (stub : ℕ → ℕ) (handler value : ℕ) (idt idt' : Idt) (value' : ℕ) : Type 0 where
  pub key : Gate (idt' 0x21) handler 0x8e 0
  pub exceptions : (a : ℕ) → a < 32 → Gate (idt' a) (stub a) 0x8e (stack_of a)
  pub others : (a : ℕ) → 32 ≤ a → a ≢ 0x21 → idt' a ≡ idt a
  pub line : value' / 2 % 2 ≡ 0
  pub below : value' % 2 ≡ value % 2
  pub above : value' / 4 ≡ value / 4

-- After `exceptions_init`, and where `pipe_create` returns, `keyboard_process_init` returns with the pipe. The entry 0x21 is
-- then a gate to the handler of the keyboard, and the entries 0 to 31 are those to the handlers of the exceptions; no
-- other entry has changed. Of the mask of the interrupt lines, only the bit of the keyboard is cleared.
pub keyboard_process_init-Ready :
    (al : Allocator) (m m' : Mem) (pipe : ℕ × ℕ × ℕ) (stub : ℕ → ℕ) (handler value : ℕ) (idt : Idt)
    → ((a : ℕ) → stub a < u64_mod)
    → handler < u64_mod
    → pipe_create al 0x200 m ≡ some (pipe, m')
    → (idt' : Idt) × (value' : ℕ) × (keyboard_process_init handler
          (exceptions_init stub idt)
          al
          m
          value
        ≡ some (idt', pipe, m', value'))
      × Ready stub handler value idt idt' value'
keyboard_process_init-Ready al m m' pipe stub handler value idt small hs run =
    let idt1 = exceptions_init stub idt in
    let set = idt_set_descriptor-Gate idt1 0x21 handler 0x8e 0 hs (omega arith) in
    (
      idt_set_descriptor idt1 0x21 handler 0x8e 0,
      (if value / 2 % 2 == 1 then value - 2 else value),
      setup-run handler value idt1 al m m' pipe run,
      record {
        key = set.0;
        exceptions = λ a l.
            let kept = set.1 a (omega (arith, l)) in
            rw kept ((exceptions_init-Gate stub idt small a).0 l);
        others = λ a l ne. set.1 a ne ∙ (exceptions_init-Gate stub idt small a).1 l;
        line = ground arith;
        below = ground arith;
        above = ground arith;
      },
    )
