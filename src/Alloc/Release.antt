-- ===== src/Alloc/Release.antt =====
-- `free` of a block in use makes it free and joins it to the free blocks beside it.
use bayos_kernel.Common.{ℕ, ◌+◌, ◌<◌, ◌≡◌, refl, ◌∙◌, ◌≢◌, true, false, List, ◌∷◌, arith, u64_mod}
use bayos_kernel.Alloc.{NodeStatus, Mem, modify, is_free, join_prev, join_next, joins}
use bayos_kernel.Alloc.Blocks.{Block, free_block, span, link, Chain, Chain-frame}
use bayos_kernel.Alloc.Spec.{merge_front}
use bayos_kernel.Alloc.Join.{Rewritten, join_next-Rewritten}
use bayos_kernel.Alloc.JoinPrev.{join_prev-node, join_prev-Rewritten}

-- the writes of `free`, past its guards
abbrev pub mark : ℕ → Mem → Mem
mark node m = modify m node (λ n. record n { status = NodeStatus.free })

abbrev pub release : ℕ → Mem → Mem
release node m =
    let m1 = mark node m in let (node', m2) = join_prev node m1 in join_next (m1 node).next node' m2

mark_self : (p : ℕ) (m : Mem) → mark p m p ≡ record (m p) { status = NodeStatus.free }
unfolding modify
mark_self p m = ground arith

mark_other : (p : ℕ) (m : Mem) (a : ℕ) → a ≢ p → mark p m a ≡ m a
unfolding modify
mark_other p m a h = ground arith

mark-Chain :
    (m : Mem) (prev p : ℕ) (b : Block) (bs : List Block)
    → Chain m prev p (b ∷ bs)
    → Chain (mark p m) prev p (free_block b.size ∷ bs)
mark-Chain m prev p b bs c = (
  ground (arith, c.0, mark_self p m),
  Chain-frame {m = m} p _ bs c.1 (λ a l h. mark_other p m a (omega arith)),
)

module _ (m : Mem) (prev p : ℕ) (b : Block) (bs : List Block) (pos : 0 < p)
    (small : p + span (b ∷ bs) < u64_mod) (c : Chain m prev p (b ∷ bs)) where
  join_prev_idle : prev ≢ p → joins m prev ≡ false → join_prev p (mark p m) ≡ (p, mark p m)
  unfolding join_prev
  join_prev_idle ne idle = ground (arith, c.0, mark_self p m, mark_other p m prev)

  pub release_head :
      prev ≢ p
      → joins m prev ≡ false
      → Rewritten m (release p m) prev p (b ∷ bs) (merge_front (free_block b.size) bs)
  release_head ne idle =
      rw (join_prev_idle ne idle, next_lem)
        (record {
          chain = joined.chain;
          outside = λ a o. joined.outside a o ∙ mark_other p m a (omega arith);
        })
    where
      next_lem : (mark p m p).next ≡ link (0x20 + b.size + p) bs
      next_lem = ground (arith, c.0, mark_self p m)

      joined :
          Rewritten
            (mark p m)
            (join_next (link (0x20 + b.size + p) bs) p (mark p m))
            prev
            p
            (free_block b.size ∷ bs)
            (merge_front (free_block b.size) bs)
      joined =
          join_next-Rewritten (mark p m) prev p (free_block b.size) bs pos refl small
            (mark-Chain m prev p b bs c)

module _ (m : Mem) (prev q : ℕ) (a b : Block) (bs : List Block) (pos : 0 < q)
    (free_a : is_free a.status ≡ true) (small : q + span (a ∷ b ∷ bs) < u64_mod)
    (c : Chain m prev q (a ∷ b ∷ bs)) where
  abbrev pub node : ℕ
  node = 0x20 + a.size + q

  abbrev pub joined : Block
  joined = free_block (a.size + b.size + 0x20)

  marked : Chain (mark node m) prev q (a ∷ free_block b.size ∷ bs)
  marked = (mark_other node m q (omega arith) ∙ c.0, mark-Chain m q node b bs c.1)

  pub release_pair : Rewritten m (release node m) prev q (a ∷ b ∷ bs) (merge_front joined bs)
  release_pair =
      rw
        (
          next_lem,
          join_prev-node (mark node m) prev q a (free_block b.size) pos free_a bs small marked,
        )
        (record {
          chain = last.chain;
          outside = λ x o.
              last.outside x (omega arith) ∙ first.outside x o ∙ mark_other node m x (omega arith);
        })
    where
      first :
          Rewritten
            (mark node m)
            (join_prev node (mark node m)).1
            prev
            q
            (a ∷ free_block b.size ∷ bs)
            (joined ∷ bs)
      first =
          join_prev-Rewritten (mark node m) prev q a (free_block b.size) pos free_a bs small marked

      same : 0x20 + (a.size + b.size + 0x20) + q ≡ 0x20 + b.size + node
      same = omega arith

      next_lem : (mark node m node).next ≡ link (0x20 + (a.size + b.size + 0x20) + q) bs
      next_lem = rw same (ground (arith, c.1.0, mark_self node m))

      last :
          Rewritten
            (join_prev node (mark node m)).1
            (join_next
              (link (0x20 + (a.size + b.size + 0x20) + q) bs)
              q
              (join_prev node (mark node m)).1)
            prev
            q
            (joined ∷ bs)
            (merge_front joined bs)
      last =
          join_next-Rewritten (join_prev node (mark node m)).1 prev q joined bs pos refl
            (omega arith) first.chain
