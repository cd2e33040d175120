-- ===== src/Alloc/JoinPrev.antt =====
-- The first `if` of `free`: a free predecessor takes in the block that was freed.
use bayos_kernel.Common.{ℕ, ◌+◌, ◌<◌, ◌≡◌, ◌≢◌, ◌⊎◌, true, List, [], ◌∷◌, arith, u64_mod, add64}
use bayos_kernel.Alloc.{Mem, is_free, join_prev, joins}
use bayos_kernel.Alloc.Blocks.{Block, free_block, span, Chain, Chain-frame}
use bayos_kernel.Alloc.Join.{Rewritten}

-- The header at `p` follows the free header at `q`.
record Follows (m : Mem) (q p : ℕ) : Type 0 where
  pos : 0 < q
  before : q < p
  back : (m p).prev ≡ q
  free_prev : joins m q ≡ true
  small : (m q).size + (m p).size + 0x20 < u64_mod
  apart : ((m p).next ≡ 0) ⊎ (p < (m p).next)

module _ (m : Mem) (q p : ℕ) (f : Follows m q p) where
  size_lem : add64 (add64 (m q).size (m p).size) 0x20 ≡ (m q).size + (m p).size + 0x20
  size_lem = omega (arith, f.small)

  node_lem : (join_prev p m).0 ≡ q
  unfolding join_prev
  node_lem = rw (f.back, f.free_prev)

  prev_self :
      (join_prev p m).1 q
      ≡ record (m q) { size = (m q).size + (m p).size + 0x20; next = (m p).next }
  unfolding join_prev
  prev_self = rw (f.back, f.free_prev, size_lem) (ground arith)

  prev_after : (m p).next ≢ 0 → (join_prev p m).1 (m p).next ≡ record (m (m p).next) { prev = q }
  unfolding join_prev
  prev_after ne = rw (f.back, f.free_prev, size_lem) (ground arith)

  prev_other : (a : ℕ) → a ≢ q → ((m p).next ≡ 0) ⊎ (a ≢ (m p).next) → (join_prev p m).1 a ≡ m a
  unfolding join_prev
  prev_other a h1 h2 = rw (f.back, f.free_prev, size_lem) (ground arith)

module _ (m : Mem) (prev q : ℕ) (a b : Block) (pos : 0 < q) (free_a : is_free a.status ≡ true) where
  follows :
      (bs : List Block)
      → q + span (a ∷ b ∷ bs) < u64_mod
      → Chain m prev q (a ∷ b ∷ bs)
      → Follows m q (0x20 + a.size + q)
  follows [] small c = ground (arith, c.0, c.1.0)
  follows (d ∷ ds) small c = ground (arith, c.0, c.1.0)

  pub join_prev-node :
      (bs : List Block)
      → q + span (a ∷ b ∷ bs) < u64_mod
      → Chain m prev q (a ∷ b ∷ bs)
      → (join_prev (0x20 + a.size + q) m).0 ≡ q
  join_prev-node bs small c = node_lem m q (0x20 + a.size + q) (follows bs small c)

  pub join_prev-Rewritten :
      (bs : List Block)
      → q + span (a ∷ b ∷ bs) < u64_mod
      → Chain m prev q (a ∷ b ∷ bs)
      → Rewritten m
          (join_prev (0x20 + a.size + q) m).1
          prev
          q
          (a ∷ b ∷ bs)
          (free_block (a.size + b.size + 0x20) ∷ bs)
  join_prev-Rewritten [] small c =
      let f = follows [] small c in
      record {
        chain = (ground (arith, c.0, c.1.0, prev_self m q (0x20 + a.size + q) f), tt);
        outside = λ x o. ground (arith, c.0, c.1.0, prev_other m q (0x20 + a.size + q) f x);
      }
  join_prev-Rewritten (d ∷ ds) small c =
      let f = follows (d ∷ ds) small c in
      record {
        chain = (
          ground (arith, c.0, c.1.0, prev_self m q (0x20 + a.size + q) f),
          rw same (
              (
                ground (arith, c.0, c.1.0, c.1.1.0, prev_after m q (0x20 + a.size + q) f),
                Chain-frame {m = m} _ _ ds c.1.1.1
                    (λ x l h. ground (arith, c.0, c.1.0, prev_other m q (0x20 + a.size + q) f x)),
              )),
        );
        outside = λ x o. ground (arith, c.0, c.1.0, prev_other m q (0x20 + a.size + q) f x);
      }
    where
      same : 0x20 + (a.size + b.size + 0x20) + q ≡ 0x20 + b.size + (0x20 + a.size + q)
      same = omega arith
