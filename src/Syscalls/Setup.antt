-- ===== src/Syscalls/Setup.antt =====
-- `syscall_init` of src/syscall.c: the registers that it writes.
use bayos_kernel.Common.{ℕ, ◌+◌, ◌-◌, ◌*◌, ◌/◌, ◌%◌, ◌^◌, ◌==◌, if◌then◌else◌}

-- The model-specific registers, by number, and two control registers.
pub record Registers : Type 0 where
  pub msr : ℕ → ℕ
  pub cr0 : ℕ
  pub cr4 : ℕ

-- `n | (1 << bit)` and `n & ~(1 << bit)`
unfoldable pub with_bit : (n bit : ℕ) → ℕ
with_bit n bit = if n / 2 ^ bit % 2 == 1 then n else n + 2 ^ bit

pub without_bit : (n bit : ℕ) → ℕ
without_bit n bit = if n / 2 ^ bit % 2 == 1 then n - 2 ^ bit else n

-- `rdmsr` and `wrmsr`, which take a register apart in two words of 32 bits.
unfoldable pub rdmsr : (msr : ℕ) → Registers → ℕ
rdmsr msr r =
    let lo = r.msr msr % 2 ^ 32 in let hi = r.msr msr / 2 ^ 32 % 2 ^ 32 in hi * 2 ^ 32 + lo

unfoldable pub wrmsr : (msr value : ℕ) → Registers → Registers
wrmsr msr value r =
    let lo = value % 2 ^ 32 in
    let hi = value / 2 ^ 32 % 2 ^ 32 in
    record r { msr = λ a. if a == msr then hi * 2 ^ 32 + lo else r.msr a }

unfoldable pub syscall_init : (handler : ℕ) → Registers → Registers
unfolding rdmsr wrmsr with_bit without_bit
syscall_init handler r =
    let efer = rdmsr 0xc000_0080 r in
    let r1 = wrmsr 0xc000_0080 (with_bit efer 0) r in
    let r2 = wrmsr 0xc000_0082 handler r1 in
    let r3 = wrmsr 0xc000_0081 (0x8 * 2 ^ 32 + 0x20 * 2 ^ 48) r2 in
    let r4 = wrmsr 0xc000_0084 (2 ^ 9 + 2 ^ 10 + 2 ^ 8 + 2 ^ 18) r3 in
    let r5 = wrmsr 0xc000_0100 0x20_1000 r4 in
    let r6 = wrmsr 0xc000_0101 0x20_1000 r5 in
    record r6 { cr0 = with_bit (without_bit r6.cr0 2) 1; cr4 = with_bit (with_bit r6.cr4 9) 10 }
