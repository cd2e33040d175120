-- ===== src/Syscalls/Selectors.antt =====
-- The segments of system calls: `syscall_init` of src/syscall.c against the descriptors of src/gdt.c.
use bayos_kernel.Syscalls.Setup.{Registers, with_bit, rdmsr, wrmsr, syscall_init}
use bayos_kernel.Gdt.{GdtEntry, Gdt, gdt_inst}
use bayos_kernel.Common.{
  ℕ, ◌+◌, ◌*◌, ◌/◌, ◌%◌, ◌^◌, ◌<◌, ◌≡◌, refl, Option, none, some, arith, ◌==◌, if◌then◌else◌,
}

-- The segment descriptor that a selector of this offset means; the task state takes two places.
unfoldable pub descriptor_at : Gdt → (offset : ℕ) → Option GdtEntry
descriptor_at g offset =
    if offset == 0x8
    then some g.kernel_code
    else if offset == 0x10
    then some g.kernel_data
    else if offset == 0x28
    then some g.user_data
    else if offset == 0x30
    then some g.user_code
    else none

-- The ring of a descriptor, and whether it is one of code.
unfoldable pub ring : GdtEntry → ℕ
ring e = e.access / 2 ^ 5 % 4

unfoldable pub is_code : GdtEntry → ℕ
is_code e = e.access / 2 ^ 3 % 2

-- The register `0xc0000081` has the selectors of the kernel in its bits 32 to 47, and those of the user in the 16
-- bits behind them: `syscall` takes them and the next place, `sysret` the second and the first place behind.
pub record AreSelectors (star : ℕ) (g : Gdt) : Type 0 where
  pub syscall_code : descriptor_at g (star / 2 ^ 32 % 2 ^ 16) ≡ some g.kernel_code
  pub syscall_stack : descriptor_at g (star / 2 ^ 32 % 2 ^ 16 + 8) ≡ some g.kernel_data
  pub sysret_code : descriptor_at g (star / 2 ^ 48 % 2 ^ 16 + 16) ≡ some g.user_code
  pub sysret_stack : descriptor_at g (star / 2 ^ 48 % 2 ^ 16 + 8) ≡ some g.user_data

star_lem :
    (handler : ℕ) (r : Registers)
    → (syscall_init handler r).msr 0xc000_0081 ≡ 0x8 * 2 ^ 32 + 0x20 * 2 ^ 48
unfolding syscall_init wrmsr
star_lem handler r = refl

entry_lem :
    (handler : ℕ) (r : Registers)
    → handler < 2 ^ 64
    → (syscall_init handler r).msr 0xc000_0082 ≡ handler
unfolding syscall_init wrmsr
entry_lem handler r h = omega (arith, h)

efer_lem :
    (handler : ℕ) (r : Registers)
    → r.msr 0xc000_0080 < 2 ^ 64
    → (syscall_init handler r).msr 0xc000_0080 ≡ r.msr 0xc000_0080 / 2 * 2 + 1
unfolding syscall_init wrmsr rdmsr with_bit
efer_lem handler r h = ground (arith, h)

-- After `syscall_init` the calls are enabled and go to the handler; their selectors mean the descriptors of `gdt_inst` for
-- the kernel, of ring 0, and on the way back those for the user, of ring 3, with code where code is wanted.
pub syscall_init-AreSelectors :
    (handler : ℕ) (r : Registers)
    → handler < 2 ^ 64
    → r.msr 0xc000_0080 < 2 ^ 64
    → let r' = syscall_init handler r in
      (r'.msr 0xc000_0082 ≡ handler)
      × (r'.msr 0xc000_0080 ≡ r.msr 0xc000_0080 / 2 * 2 + 1)
      × AreSelectors (r'.msr 0xc000_0081) gdt_inst
      × (ring gdt_inst.kernel_code ≡ 0)
      × (is_code gdt_inst.kernel_code ≡ 1)
      × (ring gdt_inst.kernel_data ≡ 0)
      × (is_code gdt_inst.kernel_data ≡ 0)
      × (ring gdt_inst.user_code ≡ 3)
      × (is_code gdt_inst.user_code ≡ 1)
      × (ring gdt_inst.user_data ≡ 3)
      × (is_code gdt_inst.user_data ≡ 0)
unfolding descriptor_at ring is_code gdt_inst
syscall_init-AreSelectors handler r h e = (
  entry_lem handler r h,
  efer_lem handler r e,
  rw (star_lem handler r) (record {
    syscall_code = refl;
    syscall_stack = refl;
    sysret_code = refl;
    sysret_stack = refl;
  }),
  refl,
  refl,
  refl,
  refl,
  refl,
  refl,
  refl,
  refl,
)
