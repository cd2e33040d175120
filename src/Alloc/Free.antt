-- ===== src/Alloc/Free.antt =====
-- `free` on the blocks of the heap.
use bayos_kernel.Common.{
  ℕ, ◌+◌, ◌-◌, ◌≤◌, ◌<◌, ◌≡◌, refl, ◌∙◌, ap, ◌≢◌, ◌⊎◌, inl, inr, true, false, ◌&&◌, List, [], ◌∷◌,
  arith, ◌==◌, Bool-cases, u64_mod, sub64,
}
use bayos_kernel.Alloc.{Mem, Allocator, is_free, free, joins}
use bayos_kernel.Alloc.Blocks.{Block, free_block, span, link, Chain, IsTidy, IsHeap}
use bayos_kernel.Alloc.Spec.{
  merge_front, free_blocks, Owns, Owns-lt, free_blocks-here, free_blocks-skip, merge_front_apart,
  headed_free-merge_front, span-free_blocks, free_blocks-IsTidy,
}
use bayos_kernel.Alloc.Join.{Rewritten}
use bayos_kernel.Alloc.Release.{release, release_head, release_pair}

link-free_blocks : (ptr p a : ℕ) (bs : List Block) → link a (free_blocks ptr p bs) ≡ link a bs
unfolding free_blocks merge_front
link-free_blocks ptr p a [] = refl
link-free_blocks ptr p a (b ∷ []) = ground arith
link-free_blocks ptr p a (b ∷ c ∷ cs) = ground arith

-- a join of three is a join of the first two, and then of the third
merge_front_pair :
    (a b : Block) (bs : List Block)
    → is_free a.status ≡ true
    → IsTidy bs
    → merge_front a (merge_front (free_block b.size) bs)
      ≡ merge_front (free_block (a.size + b.size + 0x20)) bs
unfolding merge_front
merge_front_pair a b [] f t = ground arith
merge_front_pair a b (c ∷ cs) f t = ground arith

-- A block that is not joined stays in front.
free_blocks-stay :
    (ptr p : ℕ) (b c : Block) (cs : List Block)
    → ptr ≢ p + 0x20
    → (is_free b.status ≡ false) ⊎ (ptr ≢ 0x20 + b.size + p + 0x20)
    → (is_free b.status && is_free c.status) ≡ false
    → free_blocks ptr p (b ∷ c ∷ cs) ≡ b ∷ free_blocks ptr (0x20 + b.size + p) (c ∷ cs)
free_blocks-stay ptr p b c cs ne apart tidy =
    free_blocks-skip ptr p b (c ∷ cs) ne
    ∙ merge_front_apart b (free_blocks ptr (0x20 + b.size + p) (c ∷ cs)) (
        ground (
          arith,
          free_blocks-skip ptr (0x20 + b.size + p) c cs,
          headed_free-merge_front c (free_blocks ptr (0x20 + c.size + (0x20 + b.size + p)) cs),
        ))

cons_Rewritten :
    {m m' : Mem} {prev p : ℕ} (b : Block) (bs cs : List Block)
    → link (0x20 + b.size + p) cs ≡ link (0x20 + b.size + p) bs
    → Chain m prev p (b ∷ bs)
    → Rewritten m m' p (0x20 + b.size + p) bs cs
    → Rewritten m m' prev p (b ∷ bs) (b ∷ cs)
cons_Rewritten {p} b bs cs e c r = record {
  chain = (ground (arith, r.outside p, c.0), r.chain);
  outside = λ a o. r.outside a (omega arith);
}

module _ (m : Mem) (p a node : ℕ) (b : Block) (e : (is_free b.status && node == a) ≡ false) where
  not_joined : (m p).status ≡ b.status → node ≡ a → joins m p ≡ false
  not_joined s h = ground arith

  not_behind : (is_free b.status ≡ false) ⊎ (node + 0x20 ≢ a + 0x20)
  not_behind = ground arith

both_lem :
    (node a : ℕ) (b : Block)
    → (is_free b.status && node == a) ≡ true
    → (is_free b.status ≡ true) × (node ≡ a)
both_lem node a b e = ground arith

free_blocks-pair :
    (p : ℕ) (b d : Block) (ds : List Block)
    → is_free b.status ≡ true
    → IsTidy ds
    → free_blocks (0x20 + b.size + p + 0x20) p (b ∷ d ∷ ds)
      ≡ merge_front (free_block (b.size + d.size + 0x20)) ds
free_blocks-pair p b d ds f t =
    free_blocks-skip (0x20 + b.size + p + 0x20) p b (d ∷ ds) (omega arith)
    ∙ ap (merge_front b) (free_blocks-here (0x20 + b.size + p + 0x20) (0x20 + b.size + p) d ds refl)
    ∙ merge_front_pair b d ds f t

module _ (m : Mem) (node : ℕ) where
  release-Rewritten :
      (prev p : ℕ) (bs : List Block)
      → prev < p
      → p + span bs < u64_mod
      → Chain m prev p bs
      → IsTidy bs
      → (node ≡ p → joins m prev ≡ false)
      → Owns (node + 0x20) p bs
      → Rewritten m (release node m) prev p bs (free_blocks (node + 0x20) p bs)
  release-Rewritten prev p [] lt small c t idle o = absurd o
  release-Rewritten prev p (b ∷ bs) lt small c t idle (inl o) =
      let e : node ≡ p = omega arith in
      rw (free_blocks-here (node + 0x20) p b bs o.0, e)
        (release_head m prev p b bs (omega arith) small c (omega arith) (idle e))
  release-Rewritten prev p (b ∷ []) lt small c t idle (inr o) = absurd o
  release-Rewritten prev p (b ∷ d ∷ ds) lt small c t idle (inr o) =
      elim (Bool-cases (is_free b.status && node == 0x20 + b.size + p)) [
        | inl e ↦
            let (f, at) = both_lem node (0x20 + b.size + p) b e in
            rw (at, free_blocks-pair p b d ds f t.2.2)
              (release_pair m prev p b d ds (omega arith) f small c)
        | inr e ↦
            rw
              (free_blocks-stay (node + 0x20) p b d ds
                (omega (arith, Owns-lt (node + 0x20) (0x20 + b.size + p) (d ∷ ds) o))
                (not_behind m p (0x20 + b.size + p) node b e) t.1)
              (cons_Rewritten b (d ∷ ds) _
                (link-free_blocks (node + 0x20) (0x20 + b.size + p) _ (d ∷ ds)) c
                (release-Rewritten p (0x20 + b.size + p) (d ∷ ds) (omega arith) (omega arith) c.1
                  t.2 (not_joined m p (0x20 + b.size + p) node b e (ap (λ n. n.status) c.0)) o))
      ]

Owns-range : (ptr p : ℕ) (bs : List Block) → IsTidy bs → Owns ptr p bs → ptr + 0x20 ≤ p + span bs
Owns-range ptr p [] t o = absurd o
Owns-range ptr p (b ∷ bs) t (inl o) = omega arith
Owns-range ptr p (b ∷ bs) t (inr o) = omega (arith, Owns-range ptr (0x20 + b.size + p) bs t.2 o)

Owns-used :
    (m : Mem) (prev p node : ℕ) (bs : List Block)
    → Chain m prev p bs
    → Owns (node + 0x20) p bs
    → is_free (m node).status ≡ false
Owns-used m prev p node [] c o = absurd o
Owns-used m prev p node (b ∷ bs) c (inl o) =
    let e : node ≡ p = omega arith in rw e (ground (arith, c.0))
Owns-used m prev p node (b ∷ bs) c (inr o) = Owns-used m p (0x20 + b.size + p) node bs c.1 o

-- A pointer into the arena to a node in use passes the guards.
free-release :
    (al : Allocator) (m : Mem) (node : ℕ)
    → al.addr ≤ node
    → node + 0x20 < al.addr + al.size
    → al.addr + al.size < u64_mod
    → is_free (m node).status ≡ false
    → free al (node + 0x20) m ≡ release node m
unfolding free
free-release al m node l h w u = rw (node_lem, u) (ground arith)
  where
    node_lem : sub64 (node + 0x20) 0x20 ≡ node
    node_lem = omega arith

free_node :
    {al : Allocator} {m : Mem} {bs : List Block} (node : ℕ)
    → IsHeap al m bs
    → Owns (node + 0x20) al.addr bs
    → IsHeap al (free al (node + 0x20) m) (free_blocks (node + 0x20) al.addr bs)
free_node {al} {m} {bs} node h o =
    let behind : al.addr ≤ node = omega (arith, Owns-lt (node + 0x20) al.addr bs o) in
    let inside : node + 0x20 < al.addr + al.size =
      omega (arith, Owns-range (node + 0x20) al.addr bs h.tidy o, h.tiles) in
    let done =
      release-Rewritten m node 0 al.addr bs h.nonnull (omega (arith, h.tiles, h.below)) h.chain
        h.tidy (λ x. refl) o in
    rw (free-release al m node behind inside h.below (Owns-used m 0 al.addr node bs h.chain o))
      (record {
        first = h.first;
        room = h.room;
        nonnull = h.nonnull;
        below = h.below;
        tiles = span-free_blocks (node + 0x20) al.addr bs ∙ h.tiles;
        chain = done.chain;
        tidy = free_blocks-IsTidy (node + 0x20) al.addr bs h.tidy;
      })

-- `free` of a pointer to a block in use makes that block free and joins it to the free blocks
-- beside it. The heap stays well formed.
pub free_refines :
    {al : Allocator} {m : Mem} {bs : List Block} (ptr : ℕ)
    → IsHeap al m bs
    → Owns ptr al.addr bs
    → IsHeap al (free al ptr m) (free_blocks ptr al.addr bs)
free_refines {al} {m} {bs} ptr h o = rw same (free_node (ptr - 0x20) h (rw same at o))
  where
    same : ptr ≡ ptr - 0x20 + 0x20
    same = omega (arith, Owns-lt ptr al.addr bs o)
