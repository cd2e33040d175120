-- ===== src/Syscalls/Execs/Images.antt =====
-- What `execve_syscall` of src/syscall.c leaves.
use bayos_kernel.Syscalls.{Kernel, UserFields, set_user, get_current_process}
use bayos_kernel.Syscalls.Execs.{Files}
use bayos_kernel.Paging.{Tables, free_region}
use bayos_kernel.Strings.{Bytes}
use bayos_kernel.Common.{ℕ, ◌+◌}

-- The pages before the new program is loaded: those of the old program and of `anon_allocate_syscall` are freed.
unfoldable pub freed : UserFields → Tables → Tables
freed u s =
    free_region u.cr3 0x80_0000 u.anon_allocate_end (free_region u.cr3 0x40_0000 u.elf_end s)

module _ {W : Type 0} (calls : Files W) (fuel cr3 path : ℕ) (k : Kernel W) where
  entered_state : (elf_end size : ℕ) → Tables → Bytes → W → Kernel W
  unfolding set_user
  entered_state elf_end size s2 m2 w =
      let p = get_current_process k in
      let s3 = free_region (k.users p).cr3 0x80_0000 (0x80_0000 + size) s2 in
      set_user (record k { paging = s3; io = calls.set_bytes m2 w }) p
        (record (k.users p) { anon_allocate_end = 0x80_0000; elf_end = elf_end })
