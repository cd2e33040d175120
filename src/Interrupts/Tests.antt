-- ===== src/Interrupts/Tests.antt =====
-- An empty table: tests.
use bayos_kernel.Interrupts.{Idt, exceptions_init, init_loop, idt_set_descriptor}
use bayos_kernel.Common.{ℕ, ◌+◌, ◌%◌, ◌≡◌, refl, u64_mod}

abbrev empty : Idt
empty a = record {
  isr_low = 0;
  kernel_cs = 0;
  ist = 0;
  attr = 0;
  isr_mid = 0;
  isr_high = 0;
  reserved = 0;
}

abbrev stubs : ℕ → ℕ
stubs a = (0xffff_8000_0000_0000 + a) % u64_mod

-- only the double fault has a stack of its own
stacks : ((exceptions_init stubs empty 8).ist ≡ 1) × ((exceptions_init stubs empty 14).ist ≡ 0)
unfolding exceptions_init init_loop idt_set_descriptor
stacks = (refl, refl)
