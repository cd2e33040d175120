-- ===== src/Interrupts/Table.antt =====
-- What the processor reads from the table that src/interrupts.c writes.
use bayos_kernel.Interrupts.{IdtEntry, Idt, idt_set_descriptor, init_loop, exceptions_init}
use bayos_kernel.Common.{
  ℕ, zero, suc, ◌+◌, ◌*◌, ◌^◌, ◌≤◌, ◌<◌, ◌≡◌, refl, ◌∙◌, ◌≢◌, ◌⊎◌, inl, inr, true, arith, ◌==◌,
  if◌then◌else◌, Bool-cases, ==_iff, u64_mod,
}

-- the address of the handler, as the processor puts it together
unfoldable pub handler_address : IdtEntry → ℕ
handler_address e = e.isr_low + e.isr_mid * 2 ^ 16 + e.isr_high * 2 ^ 32

-- A gate of the kernel's code segment to `isr`, with the stack `ist` and the type `flags`.
pub record Gate (e : IdtEntry) (isr flags ist : ℕ) : Type 0 where
  pub address : handler_address e ≡ isr
  pub segment : e.kernel_cs ≡ 0x8
  pub stack : e.ist ≡ ist
  pub kind : e.attr ≡ flags
  pub rest : e.reserved ≡ 0

-- `idt_set_descriptor` makes the entry a gate to any 64-bit address, and changes no other entry.
pub idt_set_descriptor-Gate :
    (idt : Idt) (entry isr flags ist : ℕ)
    → isr < u64_mod
    → ist < 8
    → Gate (idt_set_descriptor idt entry isr flags ist entry) isr flags ist
      × ((a : ℕ) → a ≢ entry → idt_set_descriptor idt entry isr flags ist a ≡ idt a)
unfolding idt_set_descriptor handler_address
idt_set_descriptor-Gate idt entry isr flags ist h k =
    let here : (entry == entry) ≡ true = ground arith in
    (
      rw here (record {
        address = omega arith;
        segment = refl;
        stack = omega arith;
        kind = refl;
        rest = refl;
      }),
      λ a ne. ground (arith, ne),
    )

-- the stack of the handler: the double fault has one of its own
abbrev pub stack_of : ℕ → ℕ
stack_of i = if i == 0x8 then 1 else 0

round_eq :
    (idt : Idt) (i isr : ℕ)
    → (if i == 0x8
        then idt_set_descriptor idt i isr 0x8e 1
        else idt_set_descriptor idt i isr 0x8e 0)
      ≡ idt_set_descriptor idt i isr 0x8e (stack_of i)
round_eq idt i isr = elim (Bool-cases (i == 0x8)) [ inl t ↦ rw t refl | inr f ↦ rw f refl ]

stack_small : (i : ℕ) → stack_of i < 8
stack_small i = ground arith

init_loop-Gate :
    (rounds i : ℕ) (stub : ℕ → ℕ) (idt : Idt)
    → ((a : ℕ) → stub a < u64_mod)
    → (a : ℕ)
    → (i ≤ a → a < i + rounds → Gate (init_loop rounds i stub idt a) (stub a) 0x8e (stack_of a))
      × ((a < i) ⊎ (i + rounds ≤ a) → init_loop rounds i stub idt a ≡ idt a)
unfolding init_loop
init_loop-Gate zero i stub idt small a = (λ p q. absurd (omega arith), λ o. refl)
init_loop-Gate (suc rounds) i stub idt small a =
    let set = idt_set_descriptor-Gate idt i (stub i) 0x8e (stack_of i) (small i) (stack_small i) in
    let rest =
      init_loop-Gate rounds (i + 1) stub (idt_set_descriptor idt i (stub i) 0x8e (stack_of i)) small
        a in
    rw (round_eq idt i (stub i)) (
      λ p q. elim (Bool-cases (a == i)) [
        | inl t ↦
            let e = (==_iff a i).0 t in
            let kept = rest.1 (inl (omega (arith, e))) in rw (kept, e) set.0
        | inr f ↦ rest.0 (ground (arith, f)) (omega arith)
      ],
      λ o. rest.1 (ground (arith, o)) ∙ set.1 a (ground (arith, o)),
    )

-- `exceptions_init` makes each of the entries 0 to 31 a gate to its handler, entry 8 with the first stack of
-- the interrupt stack table and the others with none, and changes no entry behind them.
pub exceptions_init-Gate :
    (stub : ℕ → ℕ) (idt : Idt)
    → ((a : ℕ) → stub a < u64_mod)
    → (a : ℕ)
    → (a < 32 → Gate (exceptions_init stub idt a) (stub a) 0x8e (stack_of a))
      × (32 ≤ a → exceptions_init stub idt a ≡ idt a)
unfolding exceptions_init
exceptions_init-Gate stub idt small a =
    let r = init_loop-Gate 32 0 stub idt small a in
    (λ p. r.0 (omega arith) (omega arith), λ p. r.1 (inr (omega arith)))
