-- ===== src/Gdt/Descriptors.antt =====
-- What the processor reads from the descriptors of src/gdt.c.
use bayos_kernel.Gdt.{Tss, GdtTssEntry, Gdt, gdt_tss_entry, gdt_init, tss_size, stack_size}
use bayos_kernel.Common.{ℕ, ◌+◌, ◌*◌, ◌^◌, ◌<◌, ◌≡◌, ◌≢◌, refl, arith, u64_mod}

-- The base of a system descriptor, from its four fields.
pub base_of : GdtTssEntry → ℕ
base_of e = e.base_low + e.base_mid1 * 2 ^ 16 + e.base_mid2 * 2 ^ 24 + e.base_high * 2 ^ 32

-- The fields of the descriptor fit in their widths.
pub record Encoded (e : GdtTssEntry) : Type 0 where
  pub base_low : e.base_low < 2 ^ 16
  pub base_mid1 : e.base_mid1 < 2 ^ 8
  pub base_mid2 : e.base_mid2 < 2 ^ 8
  pub base_high : e.base_high < 2 ^ 32

-- The task state and the table after `gdt_init`.
pub record Ready (kernel_stack double_fault_stack tss_at : ℕ) (t t' : Tss) (g g' : Gdt)
    : Type 0 where
  pub base : base_of g'.tss ≡ tss_at
  pub encoded : Encoded g'.tss
  pub limit : g'.tss.limit_low + 1 ≡ tss_size
  pub kernel_top : t'.rsp 0 ≡ kernel_stack + stack_size
  pub fault_top : t'.ist 0 ≡ double_fault_stack + stack_size
  pub other_stacks : (i : ℕ) → i ≢ 0 → (t'.rsp i ≡ t.rsp i) × (t'.ist i ≡ t.ist i)
  pub others :
      (g'.null ≡ g.null)
      × (g'.kernel_code ≡ g.kernel_code)
      × (g'.kernel_data ≡ g.kernel_data)
      × (g'.user_data ≡ g.user_data)
      × (g'.user_code ≡ g.user_code)

-- `gdt_init`, with stacks below the end of the address space, makes a descriptor from which the address of
-- the task state, any of 64 bits, can be read back, and sets the ends of the two stacks; no other stack and no other
-- descriptor changes.
pub gdt_init-Ready :
    (kernel_stack double_fault_stack tss_at gdt_at : ℕ) (t : Tss) (g : Gdt)
    → tss_at < u64_mod
    → kernel_stack + stack_size < u64_mod
    → double_fault_stack + stack_size < u64_mod
    → let (t', g', r) = gdt_init kernel_stack double_fault_stack tss_at gdt_at t g in
      Ready kernel_stack double_fault_stack tss_at t t' g g'
unfolding gdt_init base_of gdt_tss_entry
gdt_init-Ready kernel_stack double_fault_stack tss_at gdt_at t g small k d = record {
  base = omega (arith, small);
  encoded = record {
    base_low = omega arith;
    base_mid1 = omega arith;
    base_mid2 = omega arith;
    base_high = omega arith;
  };
  limit = refl;
  kernel_top = omega (arith, k);
  fault_top = omega (arith, d);
  other_stacks = λ i ne. (ground (arith, ne), ground (arith, ne));
  others = (refl, refl, refl, refl, refl);
}
