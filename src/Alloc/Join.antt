-- ===== src/Alloc/Join.antt =====
-- The last `if` of `free`: a free block takes in a free block behind it.
use bayos_kernel.Common.{
  ℕ, ◌+◌, ◌≤◌, ◌<◌, ◌≡◌, refl, ◌≢◌, ◌⊎◌, inl, inr, true, false, List, [], ◌∷◌, arith, Bool-cases,
  u64_mod, add64,
}
use bayos_kernel.Alloc.{Mem, is_free, join_next, joins}
use bayos_kernel.Alloc.Blocks.{Block, free_block, span, link, Chain, Chain-frame}
use bayos_kernel.Alloc.Spec.{merge_front}

-- What a step on the blocks `bs` at `p` leaves: the blocks `cs`, and nothing written outside.
pub record Rewritten (m m' : Mem) (prev p : ℕ) (bs cs : List Block) : Type 0 where
  pub chain : Chain m' prev p cs
  pub outside : (a : ℕ) → (a < p) ⊎ (p + span bs ≤ a) → m' a ≡ m a

-- `next` is a free header behind `p`, and they are joined.
record CanJoin (m : Mem) (next p : ℕ) : Type 0 where
  free_next : joins m next ≡ true
  small : (m next).size + (m p).size + 0x20 < u64_mod
  apart : ((m next).next ≡ 0) ⊎ (p < (m next).next)

module _ (m : Mem) (next p : ℕ) (pos : 0 < p) (can : CanJoin m next p) where
  size_lem : add64 (add64 (m next).size (m p).size) 0x20 ≡ (m next).size + (m p).size + 0x20
  size_lem = omega (arith, can.small)

  join_self :
      join_next next p m p
      ≡ record (m p) { size = (m next).size + (m p).size + 0x20; next = (m next).next }
  unfolding join_next
  join_self = rw (can.free_next, size_lem) (ground arith)

  join_after :
      (m next).next ≢ 0 → join_next next p m (m next).next ≡ record (m (m next).next) { prev = p }
  unfolding join_next
  join_after ne = rw (can.free_next, size_lem) (ground arith)

  join_other :
      (a : ℕ) → a ≢ p → ((m next).next ≡ 0) ⊎ (a ≢ (m next).next) → join_next next p m a ≡ m a
  unfolding join_next
  join_other a h1 h2 = rw (can.free_next, size_lem) (ground arith)

module _ (m : Mem) (prev p : ℕ) (b d : Block) (pos : 0 < p) (free_b : is_free b.status ≡ true) where
  used_next :
      (ds : List Block)
      → is_free d.status ≡ false
      → Chain m prev p (b ∷ d ∷ ds)
      → joins m (0x20 + b.size + p) ≡ false
  used_next ds f c = ground (arith, c.1.0)

  can_join :
      (ds : List Block)
      → is_free d.status ≡ true
      → p + span (b ∷ d ∷ ds) < u64_mod
      → Chain m prev p (b ∷ d ∷ ds)
      → CanJoin m (0x20 + b.size + p) p
  can_join [] f small c = ground (arith, c.0, c.1.0)
  can_join (e ∷ es) f small c = ground (arith, c.0, c.1.0)

  join-Chain :
      (ds : List Block)
      → is_free d.status ≡ true
      → p + span (b ∷ d ∷ ds) < u64_mod
      → Chain m prev p (b ∷ d ∷ ds)
      → Rewritten m
          (join_next (0x20 + b.size + p) p m)
          prev
          p
          (b ∷ d ∷ ds)
          (free_block (d.size + b.size + 0x20) ∷ ds)
  join-Chain [] f small c =
      let can = can_join [] f small c in
      record {
        chain = (ground (arith, c.0, c.1.0, join_self m (0x20 + b.size + p) p pos can), tt);
        outside = λ a o. ground (arith, c.0, c.1.0, join_other m (0x20 + b.size + p) p pos can a);
      }
  join-Chain (e ∷ es) f small c =
      let can = can_join (e ∷ es) f small c in
      record {
        chain = (
          ground (arith, c.0, c.1.0, join_self m (0x20 + b.size + p) p pos can),
          rw same (
              (
                ground (arith, c.0, c.1.0, c.1.1.0, join_after m (0x20 + b.size + p) p pos can),
                Chain-frame {m = m} _ _ es c.1.1.1 (λ a l h.
                    ground (arith, c.0, c.1.0, join_other m (0x20 + b.size + p) p pos can a)),
              )),
        );
        outside = λ a o. ground (arith, c.0, c.1.0, join_other m (0x20 + b.size + p) p pos can a);
      }
    where
      same : 0x20 + (d.size + b.size + 0x20) + p ≡ 0x20 + d.size + (0x20 + b.size + p)
      same = omega arith

pub join_next-Rewritten :
    (m : Mem) (prev p : ℕ) (b : Block) (bs : List Block)
    → 0 < p
    → is_free b.status ≡ true
    → p + span (b ∷ bs) < u64_mod
    → Chain m prev p (b ∷ bs)
    → Rewritten m (join_next (link (0x20 + b.size + p) bs) p m) prev p (b ∷ bs) (merge_front b bs)
unfolding merge_front
join_next-Rewritten m prev p b [] pos f small c =
    unfold join_next in record { chain = c; outside = λ a o. refl }
join_next-Rewritten m prev p b (d ∷ ds) pos f small c = elim (Bool-cases (is_free d.status)) [
  | inl g ↦ rw (f, g) (join-Chain m prev p b d pos f ds g small c)
  | inr g ↦
      unfold join_next in
      rw (f, g, used_next m prev p b d pos f ds g c) (record { chain = c; outside = λ a o. refl })
]
