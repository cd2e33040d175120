-- ===== src/Syscalls/Execs.antt =====
-- `execve_syscall` of src/syscall.c.
pub mod Images
use bayos_kernel.Syscalls.{Kernel, set_user, get_current_process}
use bayos_kernel.Elf.{map_elf}
use bayos_kernel.Elf.Image.{e_entry, programs_of}
use bayos_kernel.Paging.{allocate_region, free_region}
use bayos_kernel.Strings.{Bytes, strlen}
use bayos_kernel.Vfs.{File}
use bayos_kernel.Common.{ℕ, ◌+◌, Option, some, ltb, ◌==◌, if◌then◌else◌, ◌>>=◌, ℤ, pos}

-- The calls of the virtual file system on a state of their own, which has the files and the bytes in memory.
pub record Files (W : Type 0) : Type 0 where
  pub vfs_open : (path : ℕ) (flags : ℤ) → W → Option (ℕ × W)
  pub vfs_read : (file buf count : ℕ) → W → Option (ℕ × W)
  pub file_at : W → ℕ → File
  pub bytes : W → Bytes
  pub set_bytes : Bytes → W → W

-- `execve_syscall` returns -1, or enters the program at an address with the stack pointer 0x400000.
pub data Exec (W : Type 0) : Type 0 where
  refused : Kernel W → Exec W
  entered : (rip : ℕ) → Kernel W → Exec W

-- What `execve_syscall` does with the file `elf` behind the tests: the entry of the program.
pub exec_file : {W : Type 0} → Files W → (cr3 elf : ℕ) → Kernel W → Option (ℕ × Kernel W)
unfolding set_user
exec_file calls cr3 elf k = do
  let p = get_current_process k
  let u = k.users p
  let filesz = (calls.file_at k.io elf).filesz
  let s0 =
      free_region u.cr3 0x800000 u.anon_allocate_end (free_region u.cr3 0x400000 u.elf_end k.paging)
  s1 ← allocate_region u.cr3 0x800000 (0x800000 + filesz) 3 s0
  (count, w) ← calls.vfs_read elf 0x800000 filesz k.io
  let m = calls.bytes w
  (elf_end, s2, m2) ← map_elf cr3 0x800000 (programs_of 0x800000 m) s1 m
  let s3 = free_region u.cr3 0x800000 (0x800000 + filesz) s2
  some (
    e_entry 0x800000 m2,
    set_user (record k { paging = s3; io = calls.set_bytes m2 w }) p
        (record u { anon_allocate_end = 0x800000; elf_end = elf_end }),
  )

-- `execve_syscall`; `argv` and `envp` are not used, nor is the copy of the path on the stack, which is left out.
pub execve_syscall : {W : Type 0} → Files W → (fuel cr3 path : ℕ) → Kernel W → Option (Exec W)
unfolding exec_file
execve_syscall calls fuel cr3 path k = do
  (elf, w) ← calls.vfs_open path (pos 0) k.io
  let k1 = record k { io = w } in
      if elf == 0 then some (refused k1) else (do
        len ← strlen fuel path (calls.bytes w)
        if ltb 0x2000 (len + 1)
            then some (refused k1)
            else (do (rip, k2) ← exec_file calls cr3 elf k1; some (entered rip k2)))
