-- ===== src/Alloc/Cases.antt =====
-- The two ends of `alloc` of src/alloc.c, as one case distinction for its callers.
use bayos_kernel.Alloc.{Allocator, Mem, alloc}
use bayos_kernel.Alloc.Blocks.{Block, IsHeap}
use bayos_kernel.Alloc.FirstFit.{request}
use bayos_kernel.Alloc.Client.{Allocated, alloc-Allocated, alloc-null}
use bayos_kernel.Common.{
  ℕ, ◌+◌, ◌<◌, ◌≡◌, sym, ap, ◌∙◌, ◌⊎◌, inl, inr, Option, none, some, List, arith, u64_mod,
}

-- What `alloc` has given: no block, with the heap as it was, or a new one at `ptr`.
unfoldable pub Given : (al : Allocator) (m' : Mem) (bs : List Block) (n ptr : ℕ) → Type 0
Given al m' bs n ptr =
    ((ptr ≡ 0) × IsHeap al m' bs)
    ⊎ ((0 < ptr) × (bs' : List Block) × IsHeap al m' bs' × Allocated al bs bs' n ptr)

abbrev pointer_or : ℕ × Mem → Option (ℕ × Mem) → ℕ × Mem
pointer_or d none = d
pointer_or d (some a) = a

pub alloc-Given :
    {al : Allocator} {m : Mem} {bs : List Block} (size : ℕ)
    → size + 0x40 < u64_mod
    → IsHeap al m bs
    → (ptr : ℕ) × (m' : Mem) × (alloc al size m ≡ some (ptr, m'))
      × Given al m' bs (request size) ptr
unfolding Given
alloc-Given {al} {m} {bs} size small h =
    let (ptr, m1, bs', run, h1, got) = alloc-Allocated size small h in
    let (q, m2, run2, full, h2) = alloc-null size small h in
    let same = ap (λ o. pointer_or (0, m) o) (sym run ∙ run2) in
    elim (zero_or_more ptr) [
      | inl e ↦
          let kept : IsHeap al m2 bs = h2 (sym (ap (λ r. r.0) same) ∙ e) in
          (ptr, m1, run, inl (e, rw (ap (λ r. r.1) same) kept))
      | inr p ↦ (ptr, m1, run, inr (p, bs', h1, got p))
    ]
  where
    zero_or_more : (n : ℕ) → (n ≡ 0) ⊎ (0 < n)
    zero_or_more n = omega arith
