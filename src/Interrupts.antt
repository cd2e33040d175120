-- ===== src/Interrupts.antt =====
-- src/interrupts.c and include/interrupts.h: the descriptors of the interrupt table.
pub mod Table
mod Tests
use bayos_kernel.Common.{ℕ, zero, suc, ◌+◌, ◌/◌, ◌%◌, ◌^◌, ◌==◌, if◌then◌else◌}

pub record IdtEntry : Type 0 where
  pub isr_low : ℕ
  pub kernel_cs : ℕ
  pub ist : ℕ
  pub attr : ℕ
  pub isr_mid : ℕ
  pub isr_high : ℕ
  pub reserved : ℕ

-- `idt`, by index
abbrev pub Idt : Type 0
Idt = ℕ → IdtEntry

pub idt_set_descriptor : Idt → (entry isr flags ist : ℕ) → Idt
idt_set_descriptor idt entry isr flags ist a =
    if a == entry
    then record {
      isr_low = isr % 2 ^ 16;
      kernel_cs = 0x8;
      ist = ist % 8;
      attr = flags;
      isr_mid = isr / 2 ^ 16 % 2 ^ 16;
      isr_high = isr / 2 ^ 32 % 2 ^ 32;
      reserved = 0;
    }
    else idt a

-- The loop of `exceptions_init` from entry `i` on; `stub` is `isr_stub_table`.
pub init_loop : (rounds i : ℕ) (stub : ℕ → ℕ) → Idt → Idt
unfolding idt_set_descriptor
init_loop zero i stub idt = idt
init_loop (suc rounds) i stub idt = init_loop rounds (i + 1) stub (
    if i == 0x8
    then idt_set_descriptor idt i (stub i) 0x8e 1
    else idt_set_descriptor idt i (stub i) 0x8e 0)

-- `exceptions_init`, up to the instruction that loads the table
pub exceptions_init : (stub : ℕ → ℕ) → Idt → Idt
unfolding init_loop
exceptions_init stub idt = init_loop 32 0 stub idt
