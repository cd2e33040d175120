-- ===== src/Alloc/Split.antt =====
-- `split` cuts a block in two.
use bayos_kernel.Common.{
  ℕ, ◌+◌, ◌-◌, ◌≤◌, ◌<◌, ◌≡◌, ◌≢◌, ◌⊎◌, List, [], ◌∷◌, arith, u64_mod, add64, sub64,
}
use bayos_kernel.Alloc.{NodeStatus, Mem, split}
use bayos_kernel.Alloc.Blocks.{Block, free_block, used_block, span, Chain, Chain-frame}

-- `n` bytes can be cut off the block whose header stands at `p`.
record CanSplit (m : Mem) (n p : ℕ) : Type 0 where
  pos : 0 < p
  small : p + 0x20 + (m p).size < u64_mod
  room : n + 0x40 ≤ (m p).size
  apart : ((m p).next ≡ 0) ⊎ ((m p).next ≡ 0x20 + (m p).size + p)

module _ (m : Mem) (n p : ℕ) (can : CanSplit m n p) where
  new_lem : add64 (add64 p n) 0x20 ≡ 0x20 + n + p
  new_lem = omega arith

  left_lem : sub64 (sub64 (m p).size n) 0x20 ≡ (m p).size - n - 0x20
  left_lem = omega arith

  split_self :
      split n p m p ≡ record (m p) { size = n; status = NodeStatus.used; next = 0x20 + n + p }
  unfolding split
  split_self = rw (new_lem, left_lem) (ground arith)

  split_new : split n p m (0x20 + n + p) ≡ record {
    size = (m p).size - n - 0x20;
    status = NodeStatus.free;
    prev = p;
    next = (m p).next;
  }
  unfolding split
  split_new = rw (new_lem, left_lem) (ground arith)

  split_next :
      (m p).next ≢ 0 → split n p m (m p).next ≡ record (m (m p).next) { prev = 0x20 + n + p }
  unfolding split
  split_next ne = rw (new_lem, left_lem) (ground arith)

  split_other :
      (a : ℕ) → a ≢ p → a ≢ 0x20 + n + p → ((m p).next ≡ 0) ⊎ (a ≢ (m p).next) → split n p m a ≡ m a
  unfolding split
  split_other a h1 h2 h3 = rw (new_lem, left_lem) (ground arith)

module _ (m : Mem) (prev p n : ℕ) (b : Block) (pos : 0 < p) (room : n + 0x40 ≤ b.size) where
  can_split :
      (bs : List Block) → p + span (b ∷ bs) < u64_mod → Chain m prev p (b ∷ bs) → CanSplit m n p
  can_split [] small c = ground (arith, c.0)
  can_split (c ∷ cs) small ch = ground (arith, ch.0)

  pub split-outside :
      (bs : List Block)
      → p + span (b ∷ bs) < u64_mod
      → Chain m prev p (b ∷ bs)
      → (a : ℕ) → (a < p) ⊎ (p + span (b ∷ bs) ≤ a)
      → split n p m a ≡ m a
  split-outside [] small c a o = ground (arith, c.0, split_other m n p (can_split [] small c) a)
  split-outside (d ∷ ds) small c a o =
      ground (arith, c.0, split_other m n p (can_split (d ∷ ds) small c) a)

  pub split-Chain :
      (bs : List Block)
      → p + span (b ∷ bs) < u64_mod
      → Chain m prev p (b ∷ bs)
      → Chain (split n p m) prev p (used_block n ∷ free_block (b.size - n - 0x20) ∷ bs)
  split-Chain [] small c =
      ground (
        arith,
        c.0,
        split_self m n p (can_split [] small c),
        split_new m n p (can_split [] small c),
      )
  split-Chain (d ∷ ds) small c = rw same (
    ground (arith, c.0, split_self m n p can),
    (
      ground (arith, c.0, split_new m n p can),
      (
        ground (arith, c.0, c.1.0, split_next m n p can),
        Chain-frame _ _ ds c.1.1 (λ a l h. ground (arith, c.0, split_other m n p can a)),
      ),
    ),
  )
    where
      can : CanSplit m n p
      can = can_split (d ∷ ds) small c

      same : 32 + (b.size - n - 32) + (32 + n + p) ≡ 32 + b.size + p
      same = omega arith
