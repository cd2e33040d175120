-- ===== src/Vfs.antt =====
-- src/fs/vfs.c and include/fs/vfs.h: mount points, and the calls that go to the file system of one.
pub mod Paths
pub mod Longest
pub mod Lookup
mod Tests
use bayos_kernel.Alloc.{Allocator, Mem, alloc, free}
use bayos_kernel.LinkedList.{Store, ll_create, ll_size, ll_get, ll_add_back, ll_remove_pointer}
use bayos_kernel.Strings.{Bytes, strlen, strncmp, strcpy}
use bayos_kernel.Common.{
  ℕ, zero, suc, ◌+◌, Bool, ◌||◌, ◌&&◌, not, Option, none, some, ltb, ◌==◌, if◌then◌else◌, ℤ, pos,
  negsuc, is_zero, ◌>>=◌,
}

-- `mountpoint_t`: `operations` is the address of an `fs_operations_t`.
pub record Mountpoint : Type 0 where
  pub device : ℕ
  pub path : ℕ
  pub operations : ℕ

-- The list of mount points with its nodes, the mount points and the bytes in memory.
pub record Vfs : Type 0 where
  pub store : Store
  pub mountpoints : ℕ → Mountpoint
  pub bytes : Bytes

-- `matches` of `vfs_get_mountpoint`
pub matches : (path : ℕ) → Mountpoint → (mp_len : ℕ) → Bytes → Bool
matches path mp mp_len m =
    is_zero (strncmp path mp.path mp_len m)
    && (mp_len == 1 || m (path + mp_len) == 0 || m (path + mp_len) == b'/')

-- The body of the loop of `vfs_get_mountpoint` for the mount point `mp`: the new `best` and `best_len`.
-- `none` means that the fuel of `strlen` has run out.
pub better : (fuel path mp best best_len : ℕ) → Vfs → Option (ℕ × ℕ)
unfolding matches
better fuel path mp best best_len v =
    let p = v.mountpoints mp in
    if mp == 0 || p.path == 0 then some (best, best_len) else (do
      mp_len ← strlen fuel p.path v.bytes
      some (
          if matches path p mp_len v.bytes && (best == 0 || ltb best_len mp_len)
          then (mp, mp_len)
          else (best, best_len)))

-- The loop from index `i` on.
pub get_loop : (rounds i best best_len fuel ll path : ℕ) → Vfs → Option ℕ
unfolding better
get_loop zero i best best_len fuel ll path v = some best
get_loop (suc rounds) i best best_len fuel ll path v = do
  mp ← ll_get ll i v.store
  (best', best_len') ← better fuel path mp best best_len v
  get_loop rounds (i + 1) best' best_len' fuel ll path v

pub vfs_get_mountpoint : (fuel ll path : ℕ) → Vfs → Option ℕ
unfolding get_loop
vfs_get_mountpoint fuel ll path v =
    let found = get_loop (ll_size ll v.store) 0 0 0 fuel ll path v in
    if path == 0 then some 0 else found

-- `sizeof(mountpoint_t)` and `sizeof(mutex)`
abbrev pub mountpoint_size : ℕ
mountpoint_size = 24

abbrev pub mutex_size : ℕ
mutex_size = 24

pub set_mountpoint : Vfs → ℕ → Mountpoint → Vfs
set_mountpoint v p n = record v { mountpoints = λ a. if a == p then n else v.mountpoints a }

set_heap : Vfs → Mem → Vfs
set_heap v heap = record v { store = record v.store { heap = heap } }

-- `vfs_mount` from line 46 on: the mount point goes into the list.
pub mount_listed : (arena : Allocator) (al ll mp : ℕ) → Vfs → Option (ℤ × Vfs)
unfolding set_heap
mount_listed arena al ll mp v = do
  (res, store) ← ll_add_back arena al ll mp v.store
  let freed = free arena mp (free arena (v.mountpoints mp).path store.heap) in
      some (
        if is_zero res
        then (pos 0, record v { store = store })
        else (negsuc 0, set_heap (record v { store = store }) freed))

-- `vfs_mount` from line 33 on: the mount point gets a copy of the path.
pub mount_named : (fuel : ℕ) (arena : Allocator) (al ll mp path : ℕ) → Vfs → Option (ℤ × Vfs)
unfolding set_heap set_mountpoint mount_listed
mount_named fuel arena al ll mp path v = do
  len ← strlen fuel path v.bytes
  (p, heap) ← alloc arena (len + 1) v.store.heap
  let v1 = set_heap (set_mountpoint v mp (record (v.mountpoints mp) { path = p })) heap in
      if p == 0 then some (negsuc 0, set_heap v1 (free arena mp heap)) else (do
        bytes ← strcpy fuel p path v1.bytes
        mount_listed arena al ll mp (record v1 { bytes = bytes }))

pub vfs_mount :
    (fuel : ℕ) (arena : Allocator) (al ll device path operations : ℕ) → Vfs → Option (ℤ × Vfs)
unfolding set_heap set_mountpoint mount_named
vfs_mount fuel arena al ll device path operations v = do
  (mp, heap) ← alloc arena mountpoint_size v.store.heap
  let v1 = set_heap v heap in
      let n = record (v.mountpoints mp) { device = device; operations = operations } in
      if mp == 0
      then some (negsuc 0, v1)
      else mount_named fuel arena al ll mp path (set_mountpoint v1 mp n)

-- `vfs_umount`; after an unmount the code runs off the end of the function, so that there is no result.
pub vfs_umount : (fuel : ℕ) (arena : Allocator) (al ll path : ℕ) → Vfs → Option (Option ℤ × Vfs)
unfolding set_heap
vfs_umount fuel arena al ll path v = do
  mp ← vfs_get_mountpoint fuel ll path v
  if mp == 0 then some (some (negsuc 0), v) else (do
    let freed = free arena mp (free arena (v.mountpoints mp).path v.store.heap) in
        do
          store ← ll_remove_pointer arena al ll mp (record v.store { heap = freed })
          some (none, record v { store = store }))

-- `vfs_init`: the list, and the initial ram disk at "/", whose bytes are at `root`. The flag says
-- that the processor is halted.
pub vfs_init :
    (fuel : ℕ) (arena : Allocator) (al root initramfs : ℕ) → Vfs → Option (Bool × ℕ × Vfs)
unfolding set_heap
vfs_init fuel arena al root initramfs v = do
  (ll, store) ← ll_create arena al v.store
  (mut, heap) ← alloc arena mutex_size store.heap
  (ret, v1) ←
      vfs_mount fuel arena al ll 0 root initramfs (set_heap (record v { store = store }) heap)
  some (not (is_zero ret), ll, v1)

-- `file_t` and `fs_operations_t`. The operations of a file system are a parameter, on a state `W` of its own.
pub record File : Type 0 where
  pub path : ℕ
  pub offset : ℕ
  pub filesz : ℕ

pub record FsOperations (W : Type 0) : Type 0 where
  pub open_op : (path : ℕ) (flags : ℤ) → W → ℕ × W
  pub read_op : (file buf count : ℕ) → W → ℕ × W
  pub write_op : (file buf count : ℕ) → W → ℕ × W
  pub close_op : (file : ℕ) → W → ℤ × W

module _ {W : Type 0} (operations : ℕ → FsOperations W) (fuel ll : ℕ) where
  abbrev operations_of : ℕ → Vfs → FsOperations W
  operations_of mp v = operations (v.mountpoints mp).operations

  pub vfs_open : (path : ℕ) (flags : ℤ) → Vfs → W → Option (ℕ × W)
  vfs_open path flags v w = if path == 0 then some (0, w) else (do
    mp ← vfs_get_mountpoint fuel ll path v
    some (if mp == 0 then (0, w) else (operations_of mp v).open_op path flags w))

  pub vfs_read : (files : ℕ → File) (file buf count : ℕ) → Vfs → W → Option (ℕ × W)
  vfs_read files file buf count v w = do
    mp ← vfs_get_mountpoint fuel ll (files file).path v
    some (if mp == 0 then (0, w) else (operations_of mp v).read_op file buf count w)

  pub vfs_write : (files : ℕ → File) (file buf count : ℕ) → Vfs → W → Option (ℕ × W)
  vfs_write files file buf count v w = do
    mp ← vfs_get_mountpoint fuel ll (files file).path v
    some (if mp == 0 then (0, w) else (operations_of mp v).write_op file buf count w)

  pub vfs_close : (files : ℕ → File) (file : ℕ) → Vfs → W → Option (ℤ × W)
  vfs_close files file v w = do
    mp ← vfs_get_mountpoint fuel ll (files file).path v
    some (if mp == 0 then (negsuc 0, w) else (operations_of mp v).close_op file w)
