-- ===== src/Vfs/Lookup.antt =====
-- The loop of `vfs_get_mountpoint` of src/fs/vfs.c over the list of mount points.
use bayos_kernel.Vfs.{Vfs, better, get_loop, vfs_get_mountpoint}
use bayos_kernel.Vfs.Longest.{Named, IsLongest, better-Bettered}
use bayos_kernel.LinkedList.{ll_size, ll_get}
use bayos_kernel.LinkedList.Forward.{Forward, ll_get-Forward}
use bayos_kernel.Alloc.{Allocator}
use bayos_kernel.Strings.Compares.{Holds}
use bayos_kernel.Common.{
  ℕ, zero, suc, ◌+◌, ◌<◌, ◌≡◌, refl, ◌∙◌, inl, some, List, length, get_or, arith,
}

loop-step :
    {mp new new_len : ℕ} (rounds i best best_len fuel ll path : ℕ) (v : Vfs)
    → ll_get ll i v.store ≡ some mp
    → better fuel path mp best best_len v ≡ some (new, new_len)
    → get_loop (suc rounds) i best best_len fuel ll path v
      ≡ get_loop rounds (i + 1) new new_len fuel ll path v
unfolding get_loop
loop-step rounds i best best_len fuel ll path v e f = rw (e, get_loop) (rw f refl)

last : {n : ℕ} (i : ℕ) → i + 0 ≡ n → i ≡ n
last i e = omega (arith, e)

module _ (fuel ll path : ℕ) (names : ℕ → List ℕ) (mps ps : List ℕ) (v : Vfs)
    (held : Holds v.bytes path ps)
    (got : (i : ℕ) → i < length mps → ll_get ll i v.store ≡ some (get_or mps i 0))
    (named : (i : ℕ)
      → i < length mps
      → Named fuel (get_or mps i 0) (names (get_or mps i 0)) v) where
  loop-IsLongest :
      (rounds i best best_len : ℕ)
      → i + rounds ≡ length mps
      → IsLongest names mps ps i best
      → (0 < best → best_len ≡ length (names best))
      → (new : ℕ) × (get_loop rounds i best best_len fuel ll path v ≡ some new)
        × IsLongest names mps ps (length mps) new
  loop-IsLongest zero i best best_len e h len = (best, unfold get_loop in refl, rw (last i e) at h)
  loop-IsLongest (suc rounds) i best best_len e h len =
      let b =
        better-Bettered fuel names mps ps v path best best_len i held (named i (omega arith)) h
          len in
      let (new, run, longest) =
        loop-IsLongest rounds (i + 1) b.new b.new_len (omega arith) b.longest b.len in
      (
        new,
        loop-step rounds i best best_len fuel ll path v (got i (omega arith)) b.run ∙ run,
        longest,
      )

list-size : (ll : ℕ) (v : Vfs) → 0 < ll → ll_size ll v.store ≡ (v.store.lists ll).size
unfolding ll_size
list-size ll v h = ground (arith, h)

whole_loop :
    {mp : ℕ} (n fuel ll path : ℕ) (v : Vfs)
    → 0 < path
    → ll_size ll v.store ≡ n
    → get_loop n 0 0 0 fuel ll path v ≡ some mp
    → vfs_get_mountpoint fuel ll path v ≡ some mp
unfolding vfs_get_mountpoint
whole_loop n fuel ll path v p e run = rw (e, run) (ground (arith, p))

-- `vfs_get_mountpoint` of the string at `path` returns. It returns `NULL` if the path is under no mount
-- point of the list, and else one that it is under, and none that it is under is longer.
pub vfs_get_mountpoint-IsLongest :
    {arena : Allocator} (fuel ll path : ℕ) (names : ℕ → List ℕ) (mps ps : List ℕ) (v : Vfs)
    → 0 < ll
    → 0 < path
    → Holds v.bytes path ps
    → Forward arena ll mps v.store
    → ((i : ℕ) → i < length mps → Named fuel (get_or mps i 0) (names (get_or mps i 0)) v)
    → (mp : ℕ) × (vfs_get_mountpoint fuel ll path v ≡ some mp)
      × IsLongest names mps ps (length mps) mp
unfolding IsLongest
vfs_get_mountpoint-IsLongest fuel ll path names mps ps v lp pp held f named =
    let (mp, run, longest) =
      loop-IsLongest fuel ll path names mps ps v held (λ i h. ll_get-Forward ll i v.store lp h f)
        named (length mps) 0 0 0 (omega arith) (inl (refl, λ j h. absurd (omega arith)))
        (λ h. absurd (omega arith)) in
    (mp, whole_loop (length mps) fuel ll path v pp (list-size ll v lp ∙ f.size) run, longest)
