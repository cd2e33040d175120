-- ===== src/Alloc/Blocks.antt =====
-- The abstract view of the kernel heap: blocks that tile the arena, and the chain of headers that
-- represents them.
use bayos_kernel.Common.{
  ℕ, ◌+◌, ◌≤◌, ◌<◌, ◌≡◌, ◌∙◌, Bool, false, ◌&&◌, List, [], ◌∷◌, arith, u64_mod,
}
use bayos_kernel.Alloc.{NodeStatus, Mem, Allocator, is_free}

pub record Block : Type 0 where
  pub size : ℕ
  pub status : NodeStatus

abbrev pub free_block : ℕ → Block
free_block n = record { size = n; status = NodeStatus.free }

abbrev pub used_block : ℕ → Block
used_block n = record { size = n; status = NodeStatus.used }

-- the bytes of the blocks, headers included
abbrev pub span : List Block → ℕ
span [] = 0
span (b ∷ bs) = 0x20 + b.size + span bs

-- where a header's `next` points, if the blocks `bs` follow it at address `a`
abbrev pub link : ℕ → List Block → ℕ
link a [] = 0
link a (_ ∷ _) = a

-- From address `p` on the memory holds the headers of `bs`, each right behind the block before it.
abbrev pub Chain : Mem → (prev p : ℕ) → List Block → Type 0
Chain m prev p [] = Unit
Chain m prev p (b ∷ bs) =
    (m p ≡ record {
      size = b.size;
      status = b.status;
      prev = prev;
      next = link (0x20 + b.size + p) bs;
    })
    × Chain m p (0x20 + b.size + p) bs

-- Every block can hold the smallest request, and no two free blocks are neighbours.
abbrev pub headed_free : List Block → Bool
headed_free [] = false
headed_free (b ∷ _) = is_free b.status

abbrev pub IsTidy : List Block → Type 0
IsTidy [] = Unit
IsTidy (b ∷ bs) = (0x20 ≤ b.size) × ((is_free b.status && headed_free bs) ≡ false) × IsTidy bs

-- The heap `al` in memory `m` holds the blocks `bs`, which tile its arena.
pub record IsHeap (al : Allocator) (m : Mem) (bs : List Block) : Type 0 where
  pub first : al.first ≡ al.addr
  pub room : 0 < al.size
  pub nonnull : 0 < al.addr
  pub below : al.addr + al.size < u64_mod
  pub tiles : span bs ≡ al.size
  pub chain : Chain m 0 al.addr bs
  pub tidy : IsTidy bs

-- A chain survives any change outside of its blocks.
pub Chain-frame :
    {m m' : Mem} (prev p : ℕ) (bs : List Block)
    → Chain m prev p bs
    → ((a : ℕ) → p ≤ a → a < p + span bs → m' a ≡ m a)
    → Chain m' prev p bs
Chain-frame prev p [] c same = tt
Chain-frame prev p (b ∷ bs) c same = (
  same p (omega arith) (omega arith) ∙ c.0,
  Chain-frame p (0x20 + b.size + p) bs c.1 (λ a l h. same a (omega arith) (omega arith)),
)
