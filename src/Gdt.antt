-- ===== src/Gdt.antt =====
-- src/gdt.c and include/gdt.h: the segment descriptors and the task state.
pub mod Descriptors
mod Tests
use bayos_kernel.Common.{◌-◌}
use bayos_kernel.Common.{ℕ, ◌+◌, ◌*◌, ◌/◌, ◌%◌, ◌^◌, ◌==◌, if◌then◌else◌, add64}

-- `tss`: the fields that are not reserved.
pub record Tss : Type 0 where
  pub rsp : ℕ → ℕ
  pub ist : ℕ → ℕ
  pub iopb : ℕ

pub record GdtEntry : Type 0 where
  pub limit_low : ℕ
  pub base_low : ℕ
  pub base_mid : ℕ
  pub access : ℕ
  pub granularity : ℕ
  pub base_high : ℕ

pub record GdtTssEntry : Type 0 where
  pub limit_low : ℕ
  pub base_low : ℕ
  pub base_mid1 : ℕ
  pub access : ℕ
  pub granularity : ℕ
  pub base_mid2 : ℕ
  pub base_high : ℕ
  pub reserved : ℕ

-- `sizeof(tss)`, `sizeof(gdt)` and the size of each of the two stacks
abbrev pub tss_size : ℕ
tss_size = 104

abbrev pub gdt_size : ℕ
gdt_size = 5 * 8 + 16

abbrev pub stack_size : ℕ
stack_size = 0x1000

-- `GDT_ENTRY`; the low half of the byte `(flags << 4) | 0xf` is free for the limit.
pub gdt_entry : (access_byte flags : ℕ) → GdtEntry
gdt_entry access_byte flags = record {
  limit_low = 0xffff;
  base_low = 0;
  base_mid = 0;
  access = access_byte;
  granularity = (flags * 16 + 0xf) % 256;
  base_high = 0;
}

-- `GDT_TSS_ENTRY`
pub gdt_tss_entry : (addr : ℕ) → GdtTssEntry
gdt_tss_entry addr = record {
  limit_low = tss_size - 1;
  base_low = addr % 2 ^ 16;
  base_mid1 = addr / 2 ^ 16 % 2 ^ 8;
  access = 0x89;
  granularity = 0;
  base_mid2 = addr / 2 ^ 24 % 2 ^ 8;
  base_high = addr / 2 ^ 32 % 2 ^ 32;
  reserved = 0;
}

pub record Gdt : Type 0 where
  pub null : GdtEntry
  pub kernel_code : GdtEntry
  pub kernel_data : GdtEntry
  pub tss : GdtTssEntry
  pub user_data : GdtEntry
  pub user_code : GdtEntry

-- `gdt_inst` before `gdt_init`
unfoldable pub gdt_inst : Gdt
unfolding gdt_entry
gdt_inst = record {
  null = record {
    limit_low = 0;
    base_low = 0;
    base_mid = 0;
    access = 0;
    granularity = 0;
    base_high = 0;
  };
  kernel_code = gdt_entry 0x9a 0xa;
  kernel_data = gdt_entry 0x92 0xc;
  tss = record {
    limit_low = 0;
    base_low = 0;
    base_mid1 = 0;
    access = 0;
    granularity = 0;
    base_mid2 = 0;
    base_high = 0;
    reserved = 0;
  };
  user_data = gdt_entry 0xf2 0xc;
  user_code = gdt_entry 0xfa 0xa;
}

-- `gdt_register`
pub record GdtRegister : Type 0 where
  pub size : ℕ
  pub gdt : ℕ

-- `gdt_init` up to the instructions that load the register and the segments: the task state, the
-- table, and the register that is loaded. The addresses of the variables are arguments.
pub gdt_init :
    (kernel_stack double_fault_stack tss_at gdt_at : ℕ) → Tss → Gdt → Tss × Gdt × GdtRegister
unfolding gdt_tss_entry
gdt_init kernel_stack double_fault_stack tss_at gdt_at t g = (
  record t {
    rsp = λ i. if i == 0 then add64 kernel_stack stack_size else t.rsp i;
    ist = λ i. if i == 0 then add64 double_fault_stack stack_size else t.ist i;
  },
  record g { tss = gdt_tss_entry tss_at },
  record { size = gdt_size - 1; gdt = gdt_at },
)
