-- ===== src/Paging/Freeing.antt =====
-- `free_region` of src/memory.c against `walk`.
use bayos_kernel.Paging.{
  Tables, is_present, pte_addr, set_word, walk, page_round_down, free_mapped, free_loop,
  free_region,
}
use bayos_kernel.Paging.Unmapping.{
  Levels, Absent, IsLeaf, Cleared, zero_absent, Cleared-refl, Cleared-trans, Levels-Cleared,
  walk-Cleared, walk-IsLeaf, zero-Absent,
}
use bayos_kernel.Memory.{free_page}
use bayos_kernel.Common.{
  add64, u64_mod, ℕ, zero, suc, ◌+◌, ◌-◌, ◌*◌, ◌/◌, ◌≤◌, ◌<◌, ◌≡◌, refl, ap, ◌∙◌, inl, inr, true,
  false, none, some, Option, arith, ltb, ◌==◌, Bool-cases,
}

module _ (T : (level table : ℕ) → Type 0) (pml4 : ℕ) where
  -- What one call, or one round, leaves.
  unfoldable pub Freed : (va : ℕ) (s s' : Tables) → Type 0
  Freed va s s' = Cleared T s.words s'.words × Absent pml4 va s'.words

  mapped-none : (va : ℕ) (s : Tables) → walk pml4 va s.words ≡ none → free_mapped pml4 va s ≡ s
  unfolding free_mapped
  mapped-none va s e = rw (e, free_mapped) refl

  mapped-absent :
      (va entry : ℕ) (s : Tables)
      → walk pml4 va s.words ≡ some entry
      → is_present (s.words entry) ≡ false
      → free_mapped pml4 va s ≡ s
  unfolding free_mapped
  mapped-absent va entry s e n = rw (e, n, free_mapped) refl

  unfoldable without_page : (entry : ℕ) → Tables → Tables
  without_page entry s = record {
    areas = free_page s.areas (pte_addr (s.words entry));
    words = set_word s.words entry 0;
  }

  mapped-present :
      (va entry : ℕ) (s : Tables)
      → walk pml4 va s.words ≡ some entry
      → is_present (s.words entry) ≡ true
      → free_mapped pml4 va s ≡ without_page entry s
  unfolding free_mapped without_page
  mapped-present va entry s e n = rw (e, n, free_mapped) refl

  without-Cleared :
      (entry : ℕ) (s : Tables) → IsLeaf T entry → Cleared T s.words (without_page entry s).words
  unfolding Cleared set_word without_page
  without-Cleared entry s leaf a = elim (Bool-cases (a == entry)) [
    | inl t ↦ let e : a ≡ entry = ground (arith, t) in inr (rw t refl, rw e leaf)
    | inr f ↦ inl (rw f refl)
  ]

  without-zero : (entry : ℕ) (s : Tables) → (without_page entry s).words entry ≡ 0
  unfolding set_word without_page
  without-zero entry s = ground arith

  free_mapped-Freed :
      (va : ℕ) (s : Tables) → Levels T s.words → T 3 pml4 → Freed va s (free_mapped pml4 va s)
  unfolding Freed
  free_mapped-Freed va s h is = by_walk (walk pml4 va s.words) refl
    where
      by_walk : (r : Option ℕ) → walk pml4 va s.words ≡ r → Freed va s (free_mapped pml4 va s)
      by_walk none e = rw (mapped-none va s e) (Cleared-refl T s.words, unfold Absent in inl e)
      by_walk (some entry) e = elim (Bool-cases (is_present (s.words entry))) [
        | inr n ↦
            rw (mapped-absent va entry s e n)
              (Cleared-refl T s.words, unfold Absent in inr (entry, e, n))
        | inl p ↦
            let leaf = walk-IsLeaf T 3 pml4 va s.words entry h is (unfold walk in e) in
            let c = without-Cleared entry s leaf in
            rw (mapped-present va entry s e p) (
              c,
              unfold Absent walk in
                  inr (
                    entry,
                    walk-Cleared T 3 pml4 va s.words _ h c is ∙ e,
                    ap is_present (without-zero entry s) ∙ zero_absent,
                  ),
            )
      ]

  loop-stop : (rounds va stop : ℕ) (s : Tables) → stop ≤ va → free_loop rounds pml4 va stop s ≡ s
  unfolding free_loop
  loop-stop zero va stop s h = refl
  loop-stop (suc rounds) va stop s h = ground (arith, h)

  loop-step :
      (rounds va stop : ℕ) (s : Tables)
      → va < stop
      → stop + 0x1000 ≤ u64_mod
      → free_loop (suc rounds) pml4 va stop s
        ≡ free_loop rounds pml4 (va + 0x1000) stop (free_mapped pml4 va s)
  unfolding free_loop
  loop-step rounds va stop s h below =
      let next : add64 va 0x1000 ≡ va + 0x1000 = omega (arith, h, below) in
      let test : ltb va stop ≡ true = ground (arith, h) in rw (test, next) refl

  -- What the rounds from `va` on leave.
  unfoldable FreedFrom : (va stop : ℕ) (s s' : Tables) → Type 0
  FreedFrom va stop s s' =
      Cleared T s.words s'.words
      × ((j : ℕ) → va + j * 0x1000 < stop → Absent pml4 (va + j * 0x1000) s'.words)

  free_loop-FreedFrom :
      (rounds va stop : ℕ) (s : Tables)
      → stop ≤ va + rounds * 0x1000
      → stop + 0x1000 ≤ u64_mod
      → Levels T s.words
      → T 3 pml4
      → FreedFrom va stop s (free_loop rounds pml4 va stop s)
  unfolding FreedFrom Freed
  free_loop-FreedFrom zero va stop s r b h is =
      rw (loop-stop zero va stop s (omega (arith, r)))
        (Cleared-refl T s.words, λ j l. absurd (omega (arith, r, l)))
  free_loop-FreedFrom (suc rounds) va stop s r b h is = elim (Bool-cases (ltb va stop)) [
    | inr f ↦
        let over : stop ≤ va = ground (arith, f) in
        rw (loop-stop (suc rounds) va stop s over)
          (Cleared-refl T s.words, λ j l. absurd (omega (arith, over, l)))
    | inl t ↦
        let s1 = free_mapped pml4 va s in
        let (c, u) = free_mapped-Freed va s h is in
        let h1 = Levels-Cleared T s.words s1.words h c in
        let (c', later) =
          free_loop-FreedFrom rounds (va + 0x1000) stop s1 (omega (arith, r)) b h1 is in
        rw (loop-step rounds va stop s (ground (arith, t)) b) (
          Cleared-trans T _ _ _ c c',
          λ j l. page_of _ j l (zero-Absent T pml4 va s1.words _ h1 is c' u) later,
        )
  ]
    where
      page_of :
          (words : ℕ → ℕ) (j : ℕ)
          → va + j * 0x1000 < stop
          → Absent pml4 va words
          → ((i : ℕ)
              → va + 0x1000 + i * 0x1000 < stop
              → Absent pml4 (va + 0x1000 + i * 0x1000) words)
          → Absent pml4 (va + j * 0x1000) words
      page_of words zero l u later = let e : va + 0 * 0x1000 ≡ va = omega arith in rw e u
      page_of words (suc i) l u later =
          let e : va + suc i * 0x1000 ≡ va + 0x1000 + i * 0x1000 = omega arith in
          rw e (later i (omega (arith, l)))

  -- After `free_region`, `walk` finds no page of the region; and nothing has changed in the page tables but
  -- that entries for pages are 0.
  pub free_region-Absent :
      (start stop : ℕ) (s : Tables)
      → stop + 0x1000 ≤ u64_mod
      → Levels T s.words
      → T 3 pml4
      → ((j : ℕ)
          → page_round_down start + j * 0x1000 < stop
          → Absent pml4 (page_round_down start + j * 0x1000) (free_region pml4 start stop s).words)
        × Cleared T s.words (free_region pml4 start stop s).words
  unfolding free_region FreedFrom
  free_region-Absent start stop s b h is =
      let r =
        free_loop-FreedFrom ((stop - page_round_down start) / 0x1000 + 2) (page_round_down start)
          stop s (omega arith) b h is in
      (r.1, r.0)
