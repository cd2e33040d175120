-- ===== src/Gdt/Tests.antt =====
-- The table of the kernel at one address: the theorem at it.
use bayos_kernel.Gdt.{Tss, gdt_inst, gdt_init}
use bayos_kernel.Gdt.Descriptors.{Ready, gdt_init-Ready}
use bayos_kernel.Common.{arith}

abbrev no_stacks : Tss
no_stacks = record { rsp = λ i. 0; ist = λ i. 0; iopb = 0 }

gdt_init-Ready_example :
    let (t', g', r) =
      gdt_init 0xffff_ffff_8000_1000 0xffff_ffff_8000_2000 0xffff_ffff_8000_3000
        0xffff_ffff_8000_4000 no_stacks gdt_inst in
    Ready 0xffff_ffff_8000_1000 0xffff_ffff_8000_2000 0xffff_ffff_8000_3000 no_stacks t' gdt_inst g'
gdt_init-Ready_example =
    gdt_init-Ready 0xffff_ffff_8000_1000 0xffff_ffff_8000_2000 0xffff_ffff_8000_3000
      0xffff_ffff_8000_4000 no_stacks gdt_inst (omega arith) (omega arith) (omega arith)
