-- ===== src/Alloc/FirstFit.antt =====
-- `alloc` is first fit on the blocks of the heap.
use bayos_kernel.Common.{
  ℕ, zero, suc, ◌+◌, ◌≤◌, ◌<◌, ◌≡◌, refl, ◌∙◌, ◌≢◌, ◌⊎◌, inl, inr, true, false, some, List, [], ◌∷◌,
  arith, ltb, if◌then◌else◌, Bool-cases, length, u64_mod, add64,
}
use bayos_kernel.Alloc.{NodeStatus, Mem, modify, Allocator, alloc, alloc_loop, split}
use bayos_kernel.Alloc.Blocks.{Block, span, link, Chain, IsHeap, Chain-frame}
use bayos_kernel.Alloc.Spec.{
  fits, is_exact, first_fit, first_fit-exact, first_fit-cut, first_fit-skip, link-first_fit,
  span-first_fit, first_fit-IsTidy,
}
use bayos_kernel.Alloc.Split.{split-outside, split-Chain}

-- `out` is the pointer and the memory that a run leaves where `spec` is wanted of the blocks `bs`.
pub record Fitted (m : Mem) (prev p : ℕ) (bs : List Block) (spec : ℕ × List Block) (out : ℕ × Mem)
    : Type 0 where
  pub pointer : out.0 ≡ spec.0
  pub chain : Chain out.1 prev p spec.1
  pub outside : (a : ℕ) → (a < p) ⊎ (p + span bs ≤ a) → out.1 a ≡ m a

-- `alloc_loop` finds the block at `p` free and of the size asked for.
abbrev take : ℕ → Mem → Mem
take p m = modify m p (λ c. record c { status = NodeStatus.used })

take_other : (m : Mem) (p a : ℕ) → a ≢ p → take p m a ≡ m a
unfolding modify
take_other m p a h = ground arith

take_self : (m : Mem) (p : ℕ) → take p m p ≡ record (m p) { status = NodeStatus.used }
unfolding modify
take_self m p = ground arith

module _ (m : Mem) (n : ℕ) (small_n : n + 0x40 < u64_mod) where
  module _ (prev p : ℕ) (b : Block) (bs : List Block) (pos : 0 < p)
      (small : p + span (b ∷ bs) < u64_mod) (c : Chain m prev p (b ∷ bs)) where
    exact_Fitted :
        is_exact n b ≡ true
        → Fitted m prev p (b ∷ bs) (first_fit n p (b ∷ bs)) (add64 p 0x20, take p m)
    exact_Fitted e = rw (first_fit-exact n p b bs e) (record {
      pointer = omega arith;
      chain = (
        ground (arith, take_self m p, c.0),
        Chain-frame {m = m} p _ bs (rw same c.1) (λ a l h. take_other m p a (omega arith)),
      );
      outside = λ a o. take_other m p a (omega arith);
    })
      where
        same : 0x20 + n + p ≡ 0x20 + b.size + p
        same = ground arith

    cut_Fitted :
        is_exact n b ≡ false
        → fits n b ≡ true
        → Fitted m prev p (b ∷ bs) (first_fit n p (b ∷ bs)) (add64 p 0x20, split n p m)
    cut_Fitted e f = rw (first_fit-cut n p b bs e f) (record {
      pointer = omega arith;
      chain = split-Chain m prev p n b pos room bs small c;
      outside = split-outside m prev p n b pos room bs small c;
    })
      where
        room : n + 0x40 ≤ b.size
        room = ground arith

    skip_Fitted :
        is_exact n b ≡ false
        → fits n b ≡ false
        → (out : ℕ × Mem)
        → Fitted m p (0x20 + b.size + p) bs (first_fit n (0x20 + b.size + p) bs) out
        → Fitted m prev p (b ∷ bs) (first_fit n p (b ∷ bs)) out
    skip_Fitted e f out t = rw (first_fit-skip n p b bs e f) (record {
      pointer = t.pointer;
      chain = (
        ground
            (arith, c.0, t.outside p, link-first_fit n (0x20 + b.size + p) (0x20 + b.size + p) bs),
        t.chain,
      );
      outside = λ a o. t.outside a (ground arith);
    })

  alloc_loop-Fitted :
      (k prev p : ℕ) (bs : List Block)
      → 0 < p
      → p + span bs < u64_mod
      → length bs < k
      → Chain m prev p bs
      → (out : ℕ × Mem) × (alloc_loop k n (link p bs) m ≡ some out)
        × Fitted m prev p bs (first_fit n p bs) out
  unfolding alloc_loop
  alloc_loop-Fitted zero prev p bs pos small fuel c = absurd (omega arith)
  alloc_loop-Fitted (suc k) prev p [] pos small fuel c = (
    (0, m),
    refl,
    unfold first_fit in record { pointer = refl; chain = tt; outside = λ a o. refl },
  )
  alloc_loop-Fitted (suc k) prev p (b ∷ bs) pos small fuel c = elim (Bool-cases (is_exact n b)) [
    | inl e ↦ (_, ground (arith, c.0), exact_Fitted prev p b bs pos small c e)
    | inr e ↦ elim (Bool-cases (fits n b)) [
      | inl f ↦ (_, ground (arith, c.0), cut_Fitted prev p b bs pos small c e f)
      | inr f ↦
          let (out, run, fit) =
            alloc_loop-Fitted k p (0x20 + b.size + p) bs (omega arith) (omega arith) (omega arith)
              c.1 in
          (out, ground (arith, c.0), skip_Fitted prev p b bs pos small c e f out fit)
    ]
  ]

length-le-span : (bs : List Block) → length bs ≤ span bs
length-le-span [] = omega arith
length-le-span (b ∷ bs) = omega (arith, length-le-span bs)

link_nonempty : (a n : ℕ) (bs : List Block) → span bs ≡ n → 0 < n → link a bs ≡ a
link_nonempty a n [] e h = absurd (omega arith)
link_nonempty a n (b ∷ bs) e h = refl

-- the size that `alloc` goes by
abbrev pub request : ℕ → ℕ
request size = if ltb size 0x20 then 0x20 else size

-- `alloc` returns, for every size that does not overflow its sums, the pointer of first fit on the blocks of the heap, and leaves a
-- heap with the blocks of first fit.
pub alloc_refines :
    {al : Allocator} {m : Mem} {bs : List Block} (size : ℕ)
    → size + 0x40 < u64_mod
    → IsHeap al m bs
    → (m' : Mem) × (alloc al size m ≡ some ((first_fit (request size) al.addr bs).0, m'))
      × IsHeap al m' (first_fit (request size) al.addr bs).1
unfolding alloc
alloc_refines {al} {m} {bs} size small h =
    let n = request size in
    let (out, run, fit) =
      alloc_loop-Fitted m n (ground arith) (suc al.size) 0 al.addr bs h.nonnull
        (omega (arith, h.tiles, h.below)) (omega (arith, length-le-span bs, h.tiles)) h.chain in
    (
      out.1,
      ground (arith, h.first, link_nonempty al.addr al.size bs h.tiles h.room, fit.pointer),
      record {
        first = h.first;
        room = h.room;
        nonnull = h.nonnull;
        below = h.below;
        tiles = span-first_fit n al.addr bs ∙ h.tiles;
        chain = fit.chain;
        tidy = first_fit-IsTidy n al.addr bs (ground arith) h.tidy;
      },
    )
