-- ===== src/Alloc/Client.antt =====
-- What the callers of `alloc` and `free` rely on.
use bayos_kernel.Common.{
  ℕ, suc, ◌+◌, ◌-◌, ◌≤◌, ◌<◌, ◌≡◌, refl, ◌∙◌, ap, ◌↔◌, ◌⊎◌, inl, inr, true, false, some, List, [],
  ◌∷◌, arith, Bool-cases, u64_mod, add64,
}
use bayos_kernel.Alloc.{Mem, Allocator, is_free, alloc, alloc_loop, split, free, new_allocator}
use bayos_kernel.Alloc.Blocks.{Block, free_block, used_block, IsHeap}
use bayos_kernel.Alloc.Spec.{
  is_exact, fits, first_fit, first_fit-exact, first_fit-cut, first_fit-skip, first_fit-lt, Owns,
  free_blocks-first_fit,
}
use bayos_kernel.Alloc.FirstFit.{request, alloc_refines}
use bayos_kernel.Alloc.Free.{free_refines}

-- A block of `n` bytes in use begins at `ptr`.
abbrev pub InUse : ℕ → ℕ → ℕ → List Block → Type 0
InUse ptr n p [] = ⊥
InUse ptr n p (b ∷ bs) =
    ((ptr ≡ p + 0x20) × (b ≡ used_block n)) ⊎ InUse ptr n (0x20 + b.size + p) bs

-- Two blocks with their headers do not overlap.
abbrev pub Apart : ℕ → ℕ → ℕ → ℕ → Type 0
Apart q k ptr n = (q + k + 0x20 ≤ ptr) ⊎ (ptr + n + 0x20 ≤ q)

InUse-lt : (ptr n p : ℕ) (bs : List Block) → InUse ptr n p bs → p + 0x20 ≤ ptr
InUse-lt ptr n p [] u = absurd u
InUse-lt ptr n p (b ∷ bs) (inl u) = omega arith
InUse-lt ptr n p (b ∷ bs) (inr u) = omega (arith, InUse-lt ptr n (0x20 + b.size + p) bs u)

pub InUse-Owns : (ptr n p : ℕ) (bs : List Block) → InUse ptr n p bs → Owns ptr p bs
InUse-Owns ptr n p [] u = u
InUse-Owns ptr n p (b ∷ bs) (inl u) = inl (u.0, ap (λ c. is_free c.status) u.1)
InUse-Owns ptr n p (b ∷ bs) (inr u) = inr (InUse-Owns ptr n (0x20 + b.size + p) bs u)

pub first_fit-InUse :
    (n p : ℕ) (bs : List Block)
    → 0 < (first_fit n p bs).0
    → InUse (first_fit n p bs).0 n p (first_fit n p bs).1
first_fit-InUse n p [] h = unfold first_fit in absurd (omega arith)
first_fit-InUse n p (b ∷ bs) h = elim (Bool-cases (is_exact n b)) [
  | inl e ↦ rw (first_fit-exact n p b bs e) (inl (refl, refl))
  | inr e ↦ elim (Bool-cases (fits n b)) [
    | inl f ↦ rw (first_fit-cut n p b bs e f) (inl (refl, refl))
    | inr f ↦ rw (first_fit-skip n p b bs e f) (
        inr
          (first_fit-InUse n (0x20 + b.size + p) bs (ground (arith, first_fit-skip n p b bs e f))))
  ]
]

module _ (n p q k : ℕ) (b : Block) where
  exact_not_used : is_exact n b ≡ true → b ≡ used_block k → ⊥
  exact_not_used e u = ground (arith, ap (λ c. is_free c.status) u)

  fits_not_used : fits n b ≡ true → b ≡ used_block k → ⊥
  fits_not_used e u = ground (arith, ap (λ c. is_free c.status) u)

  exact_InUse :
      (bs : List Block)
      → is_exact n b ≡ true
      → InUse q k (0x20 + b.size + p) bs
      → InUse q k p (used_block n ∷ bs)
  exact_InUse bs e u = let same : 0x20 + n + p ≡ 0x20 + b.size + p = ground arith in inr (rw same u)

  cut_InUse :
      (bs : List Block)
      → fits n b ≡ true
      → InUse q k (0x20 + b.size + p) bs
      → InUse q k p (used_block n ∷ free_block (b.size - n - 0x20) ∷ bs)
  cut_InUse bs f u =
      let same : 0x20 + (b.size - n - 0x20) + (0x20 + n + p) ≡ 0x20 + b.size + p = ground arith in
      inr (inr (rw same u))

-- Blocks in use stay where they are.
first_fit-keeps :
    (n p q k : ℕ) (bs : List Block) → InUse q k p bs → InUse q k p (first_fit n p bs).1
first_fit-keeps n p q k [] u = absurd u
first_fit-keeps n p q k (b ∷ bs) u = elim (Bool-cases (is_exact n b)) [
  | inl e ↦ rw (first_fit-exact n p b bs e) (elim u [
    | inl w ↦ absurd (exact_not_used n p q k b e w.1)
    | inr w ↦ exact_InUse n p q k b bs e w
  ])
  | inr e ↦ elim (Bool-cases (fits n b)) [
    | inl f ↦ rw (first_fit-cut n p b bs e f) (elim u [
      | inl w ↦ absurd (fits_not_used n p q k b f w.1)
      | inr w ↦ cut_InUse n p q k b bs f w
    ])
    | inr f ↦
        rw (first_fit-skip n p b bs e f)
          (elim u [ inl w ↦ inl w | inr w ↦ inr (first_fit-keeps n (0x20 + b.size + p) q k bs w) ])
  ]
]

-- The new block lies beside the blocks in use.
first_fit-Apart :
    (n p q k : ℕ) (bs : List Block)
    → 0 < (first_fit n p bs).0
    → InUse q k p bs
    → Apart q k (first_fit n p bs).0 n
first_fit-Apart n p q k [] h u = absurd u
first_fit-Apart n p q k (b ∷ bs) h u = elim (Bool-cases (is_exact n b)) [
  | inl e ↦ rw (first_fit-exact n p b bs e) (elim u [
    | inl w ↦ absurd (exact_not_used n p q k b e w.1)
    | inr w ↦ inr (ground (arith, InUse-lt q k (0x20 + b.size + p) bs w))
  ])
  | inr e ↦ elim (Bool-cases (fits n b)) [
    | inl f ↦ rw (first_fit-cut n p b bs e f) (elim u [
      | inl w ↦ absurd (fits_not_used n p q k b f w.1)
      | inr w ↦ inr (ground (arith, InUse-lt q k (0x20 + b.size + p) bs w))
    ])
    | inr f ↦
        let found : 0 < (first_fit n (0x20 + b.size + p) bs).0 =
          ground (arith, first_fit-skip n p b bs e f) in
        rw (first_fit-skip n p b bs e f) (elim u [
          | inl w ↦ inl (
              omega (arith, ap (λ c. c.size) w.1, w.0, first_fit-lt n (0x20 + b.size + p) bs found))
          | inr w ↦ first_fit-Apart n (0x20 + b.size + p) q k bs found w
        ])
  ]
]

-- What `alloc` gives its caller at `ptr`, of the heap with the blocks `bs`.
pub record Allocated (al : Allocator) (bs bs' : List Block) (n ptr : ℕ) : Type 0 where
  pub owned : InUse ptr n al.addr bs'
  pub kept : (q k : ℕ) → InUse q k al.addr bs → InUse q k al.addr bs'
  pub apart : (q k : ℕ) → InUse q k al.addr bs → Apart q k ptr n

-- On a well-formed heap `alloc` of a size that does not overflow its sums returns. The heap that
-- it leaves is well formed. If the pointer is not `NULL`, then a block of the size asked for, and at least 0x20 bytes, is in use
-- there, the blocks that were in use still are, and the new one overlaps none of them.
pub alloc-Allocated :
    {al : Allocator} {m : Mem} {bs : List Block} (size : ℕ)
    → size + 0x40 < u64_mod
    → IsHeap al m bs
    → (ptr : ℕ) × (m' : Mem) × (bs' : List Block) × (alloc al size m ≡ some (ptr, m'))
      × IsHeap al m' bs'
      × (0 < ptr → Allocated al bs bs' (request size) ptr)
alloc-Allocated {al} {bs} size small h =
    let n = request size in
    let (m', run, h') = alloc_refines size small h in
    (
      (first_fit n al.addr bs).0,
      m',
      (first_fit n al.addr bs).1,
      run,
      h',
      λ found. record {
        owned = first_fit-InUse n al.addr bs found;
        kept = λ q k u. first_fit-keeps n al.addr q k bs u;
        apart = λ q k u. first_fit-Apart n al.addr q k bs found u;
      },
    )

-- no free block is of size `n`, or has room for `n` bytes and another block
abbrev pub NoFit : ℕ → List Block → Type 0
NoFit n [] = Unit
NoFit n (b ∷ bs) = (is_exact n b ≡ false) × (fits n b ≡ false) × NoFit n bs

first_fit-NoFit : (n p : ℕ) (bs : List Block) → (first_fit n p bs).0 ≡ 0 → NoFit n bs
unfolding first_fit
first_fit-NoFit n p [] h = tt
first_fit-NoFit n p (b ∷ bs) h = ground (arith, first_fit-NoFit n (0x20 + b.size + p) bs)

NoFit-first_fit : (n p : ℕ) (bs : List Block) → NoFit n bs → first_fit n p bs ≡ (0, bs)
NoFit-first_fit n p [] h = unfold first_fit in refl
NoFit-first_fit n p (b ∷ bs) h =
    first_fit-skip n p b bs h.0 h.1
    ∙ ap (λ r. (r.0, b ∷ r.1)) (NoFit-first_fit n (0x20 + b.size + p) bs h.2)

-- `alloc` returns `NULL` exactly when no free block fits, and then changes no block.
pub alloc-null :
    {al : Allocator} {m : Mem} {bs : List Block} (size : ℕ)
    → size + 0x40 < u64_mod
    → IsHeap al m bs
    → (ptr : ℕ) × (m' : Mem) × (alloc al size m ≡ some (ptr, m'))
      × ((ptr ≡ 0) ↔ NoFit (request size) bs)
      × (ptr ≡ 0 → IsHeap al m' bs)
alloc-null {al} {bs} size small h =
    let n = request size in
    let (m', run, h') = alloc_refines size small h in
    (
      (first_fit n al.addr bs).0,
      m',
      run,
      (first_fit-NoFit n al.addr bs, λ no. ap (λ r. r.0) (NoFit-first_fit n al.addr bs no)),
      λ e. rw (ap (λ r. r.1) (NoFit-first_fit n al.addr bs (first_fit-NoFit n al.addr bs e))) at h',
    )

-- `free` of what `alloc` has just returned gives the heap back the blocks that it had.
pub free-alloc :
    {al : Allocator} {m : Mem} {bs : List Block} (size : ℕ)
    → size + 0x40 < u64_mod
    → IsHeap al m bs
    → (ptr : ℕ) × (m' : Mem) × (alloc al size m ≡ some (ptr, m'))
      × (0 < ptr → IsHeap al (free al ptr m') bs)
free-alloc {al} {bs} size small h =
    let n = request size in
    let (m', run, h') = alloc_refines size small h in
    let ptr = (first_fit n al.addr bs).0 in
    (
      ptr,
      m',
      run,
      λ found. rw (free_blocks-first_fit n al.addr bs h.tidy found) at (
          free_refines ptr h' (
            InUse-Owns ptr n al.addr (first_fit n al.addr bs).1
              (first_fit-InUse n al.addr bs found))),
    )

-- `new_allocator` makes a heap of one free block.
pub new_allocator-IsHeap :
    (addr size : ℕ) (m : Mem)
    → 0 < addr
    → 0x40 ≤ size
    → addr + size < u64_mod
    → let (al, m') = new_allocator addr size m in IsHeap al m' (free_block (size - 0x20) ∷ [])
unfolding new_allocator
new_allocator-IsHeap addr size m pos room small = ground arith

loop_overflow :
    (k size p : ℕ) (m : Mem)
    → 0 < p
    → p + 0x20 < u64_mod
    → u64_mod ≤ size + 0x40
    → size < u64_mod
    → 0x40 ≤ (m p).size
    → (m p).size < size
    → is_free (m p).status ≡ true
    → alloc_loop (suc k) size p m ≡ some (p + 0x20, split size p m)
unfolding alloc_loop
loop_overflow k size p m pos below wraps word large less f = rw (at, wrapped, f) (ground arith)
  where
    at : add64 p 0x20 ≡ p + 0x20
    at = omega arith

    wrapped : add64 (add64 size 0x20) 0x20 ≡ size + 0x40 - u64_mod
    wrapped = omega arith

-- The sums of `alloc` overflow: for a size within 0x40 of 2 ^ 64 a free first block with a few bytes passes the test,
-- and `alloc` returns a pointer to it, however much smaller it is than the size asked for.
pub alloc_overflow :
    {al : Allocator} {m : Mem} {b : Block} {bs : List Block} (size : ℕ)
    → u64_mod ≤ size + 0x40
    → size < u64_mod
    → 0x40 ≤ b.size
    → b.size < size
    → is_free b.status ≡ true
    → IsHeap al m (b ∷ bs)
    → (m' : Mem) × (alloc al size m ≡ some (al.addr + 0x20, m'))
unfolding alloc
alloc_overflow {al} {m} {b} {bs} size wraps word large less f h =
    (split size al.addr m, rw (big, h.first) run)
  where
    big : request size ≡ size
    big = ground arith

    held : (m al.addr).size ≡ b.size
    held = ap (λ n. n.size) h.chain.0

    state : is_free (m al.addr).status ≡ true
    state = ap (λ n. is_free n.status) h.chain.0 ∙ f

    run : alloc_loop (suc al.size) size al.addr m ≡ some (al.addr + 0x20, split size al.addr m)
    run =
        loop_overflow al.size size al.addr m h.nonnull (omega (arith, h.below, h.tiles)) wraps word
          (omega (arith, held)) (omega (arith, held)) state
