-- ===== src/Initramfs.antt =====
-- src/fs/initramfs.c and include/fs/initramfs.h: the files of a tar archive in memory.
pub mod Octal
pub mod Frame
pub mod Archive
pub mod Lookup
pub mod Pieces
pub mod Reads
mod Tests
use bayos_kernel.Alloc.{Allocator, Mem, alloc, free}
use bayos_kernel.Strings.{Bytes, memcmp, memcpy, strlen, strcpy}
use bayos_kernel.Vfs.{File}
use bayos_kernel.Common.{
  ℕ, zero, suc, ◌+◌, ◌-◌, ◌*◌, ◌/◌, ◌%◌, ◌^◌, Option, none, some, ltb, leb, ◌==◌, ◌||◌,
  if◌then◌else◌, is_zero, ◌>>=◌,
}

-- The loop of `oct2bin`, with the 32 bits of its `int`.
pub oct_loop : (size c n : ℕ) → Bytes → ℕ
oct_loop zero c n m = n
oct_loop (suc size) c n m = oct_loop size (c + 1) ((n * 8 + m c + 2 ^ 32 - b'0') % 2 ^ 32) m

pub oct2bin : (str size : ℕ) → Bytes → ℕ
unfolding oct_loop
oct2bin str size m = oct_loop size str 0 m

-- How far the next header is from a header of a file of this size. A size that is negative as an `int` is left out.
pub header_step : (filesize : ℕ) → ℕ
header_step filesize = ((filesize + 511) / 512 + 1) * 512

-- The loop of `initramfs_lookup` at the header `ptr`, on fuel (`none`: it ran out): the size that it
-- returns, and what it writes to `out`, or 0 if it writes nothing. The string "ustar" is at `ustar`.
pub lookup_loop : (rounds fuel ustar ptr filename : ℕ) → Bytes → Option (ℕ × ℕ)
unfolding oct2bin header_step
lookup_loop zero fuel ustar ptr filename m = none
lookup_loop (suc rounds) fuel ustar ptr filename m =
    let filesize = oct2bin (ptr + 0x7c) 11 m in
    let rest = lookup_loop rounds fuel ustar (ptr + header_step filesize) filename m in
    if is_zero (memcmp (ptr + 257) ustar 5 m)
    then (do
      len ← strlen fuel filename m
      if is_zero (memcmp (ptr + 1) filename (len + 1) m) then some (filesize, ptr + 512) else rest)
    else some (0, 0)

pub initramfs_lookup : (fuel ustar archive filename : ℕ) → Bytes → Option (ℕ × ℕ)
unfolding lookup_loop
initramfs_lookup fuel ustar archive filename m =
    if filename == 0 then some (2 ^ 32 - 1, 0) else lookup_loop fuel fuel ustar archive filename m

-- `sizeof(file_t)`
abbrev pub file_size : ℕ
file_size = 24

-- The heap, the records of files and the bytes in memory.
pub record Ramfs : Type 0 where
  pub heap : Mem
  pub files : ℕ → File
  pub bytes : Bytes

pub set_file : Ramfs → ℕ → File → Ramfs
set_file s p f = record s { files = λ a. if a == p then f else s.files a }

-- `open`. The pointer `out` is not set if there is no such file; the test of the size comes first.
pub open_file : (fuel : ℕ) (arena : Allocator) (ustar archive path : ℕ) → Ramfs → Option (ℕ × Ramfs)
unfolding set_file
open_file fuel arena ustar archive path s = do
  (filesz, out) ← initramfs_lookup fuel ustar archive path s.bytes
  if filesz == 0 || out == 0 then some (0, s) else (do
    (file, heap) ← alloc arena file_size s.heap
    let s1 = record s { heap = heap } in
        if file == 0 then some (0, s1) else (do
          len ← strlen fuel path s1.bytes
          (copy, heap2) ← alloc arena (len + 1) s1.heap
          if copy == 0 then some (0, record s1 { heap = free arena file heap2 }) else (do
            bytes ← strcpy fuel copy path s1.bytes
            let s2 = record s1 { heap = heap2; bytes = bytes } in
                some
                  (file, set_file s2 file (record { path = copy; offset = 0; filesz = filesz })))))

-- `read`, of the file record `f`; a size that is negative as an `int` is left out.
pub read : (fuel ustar archive : ℕ) (f : File) (buf count : ℕ) → Bytes → Option (ℕ × File × Bytes)
read fuel ustar archive f buf count m = do
  (filesz, file_buf) ← initramfs_lookup fuel ustar archive f.path m
  let remaining = filesz - f.offset in
      let to_copy = if ltb count remaining then count else remaining in
      if leb filesz f.offset
      then some (0, f, m)
      else some (
        to_copy,
        record f { offset = f.offset + to_copy },
        memcpy buf (file_buf + f.offset) to_copy m,
      )

-- `write`
pub write : (file buf count : ℕ) → ℕ
write file buf count = 0

-- `close`; it returns no value.
pub close : Allocator → (file : ℕ) → Ramfs → Ramfs
close arena file s = record s { heap = free arena file (free arena (s.files file).path s.heap) }
