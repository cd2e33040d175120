-- ===== src/Vfs/Tests.antt =====
-- The mount points "/" and "/a": the theorems at them.
use bayos_kernel.Vfs.{Vfs, vfs_get_mountpoint}
use bayos_kernel.Vfs.Longest.{Named, IsLongest}
use bayos_kernel.Vfs.Lookup.{vfs_get_mountpoint-IsLongest}
use bayos_kernel.LinkedList.Sample.{sample_store, sample_Forward}
use bayos_kernel.Strings.{Bytes}
use bayos_kernel.Strings.Compares.{Holds}
use bayos_kernel.Common.{◌||◌}
use bayos_kernel.Common.{
  ℕ, zero, suc, ◌<◌, ◌≡◌, refl, some, List, [], ◌∷◌, length, get_or, arith, ◌==◌, if◌then◌else◌,
}

-- "/" at 10, "/a" at 20 and "/a/b" at 30
abbrev bytes : Bytes
bytes a =
    if a == 10 || a == 20 || a == 30 || a == 32
    then b'/'
    else if a == 21 || a == 31
    then b'a'
    else if a == 33
    then b'b'
    else 0

abbrev two_mounts : Vfs
two_mounts = record {
  store = sample_store;
  mountpoints =
      λ a. record { device = 0; path = if a == 0x2000 then 10 else 20; operations = 0x4000 };
  bytes = bytes;
}

abbrev mounts : List ℕ
mounts = 0x2000 ∷ 0x2100 ∷ []

abbrev names : ℕ → List ℕ
names mp = if mp == 0x2000 then b'/' ∷ [] else b'/' ∷ b'a' ∷ []

abbrev path : List ℕ
path = b'/' ∷ b'a' ∷ b'/' ∷ b'b' ∷ []

path-Holds : Holds bytes 30 path
unfolding Holds
path-Holds =
    (refl, omega arith, (refl, omega arith, (refl, omega arith, (refl, omega arith, refl))))

root-Named : Named 5 0x2000 (b'/' ∷ []) two_mounts
unfolding Holds
root-Named = record {
  mountpoint = omega arith;
  path = omega arith;
  held = (refl, omega arith, refl);
  short = omega arith;
}

other-Named : Named 5 0x2100 (b'/' ∷ b'a' ∷ []) two_mounts
unfolding Holds
other-Named = record {
  mountpoint = omega arith;
  path = omega arith;
  held = (refl, omega arith, (refl, omega arith, refl));
  short = omega arith;
}

all-Named :
    (i : ℕ) → i < length mounts → Named 5 (get_or mounts i 0) (names (get_or mounts i 0)) two_mounts
all-Named zero h = root-Named
all-Named (suc zero) h = other-Named
all-Named (suc (suc i)) h = absurd (omega arith)

vfs_get_mountpoint-IsLongest_example :
    (mp : ℕ) × (vfs_get_mountpoint 5 0x3000 30 two_mounts ≡ some mp)
    × IsLongest names mounts path 2 mp
vfs_get_mountpoint-IsLongest_example =
    vfs_get_mountpoint-IsLongest 5 0x3000 30 names mounts path two_mounts (omega arith)
      (omega arith) path-Holds sample_Forward all-Named
