-- ===== src/Paging/Unmapping.antt =====
-- Page tables of src/memory.c whose entries for pages are set to 0: what `walk` finds then.
use bayos_kernel.Paging.{pt_index, is_present, is_huge, pte_addr, entry_of, walk_levels, walk}
use bayos_kernel.Paging.Path.{entry_of-within}
use bayos_kernel.Common.{
  some-equal, ◌*◌, ◌/◌, ◌^◌, ℕ, zero, suc, ◌+◌, ◌%◌, ◌≤◌, ◌<◌, ◌≡◌, refl, sym, ap, ◌∙◌, ◌⊎◌, inl,
  inr, true, false, none, some, arith, Bool-cases,
}

-- The tables of each level: one does not stand on two levels, and the entries of the upper ones that are present and no
-- huge pages lead to tables of the level below.
pub record Levels (T : (level table : ℕ) → Type 0) (words : ℕ → ℕ) : Type 0 where
  pub aligned : (l t : ℕ) → T l t → t % 0x1000 ≡ 0
  pub only : (l l' t : ℕ) → T l t → T l' t → l ≡ l'
  pub down :
      (l t a : ℕ)
      → T (suc l) t
      → t ≤ a
      → a < t + 0x1000
      → is_present (words a) ≡ true
      → is_huge (words a) ≡ false
      → T l (pte_addr (words a))

-- `walk` finds no entry for the address, or one that is not present.
unfoldable pub Absent : (pml4 va : ℕ) → (ℕ → ℕ) → Type 0
Absent pml4 va words =
    (walk pml4 va words ≡ none)
    ⊎ ((entry : ℕ) × (walk pml4 va words ≡ some entry) × (is_present (words entry) ≡ false))

-- The processor finds a page of 4 KiB for the address, from the table of a level on: each entry is present, and those of the
-- upper levels are no huge pages.
unfoldable pub PageAt : (level table va : ℕ) → (ℕ → ℕ) → Type 0
PageAt zero table va words = words (table + va / 2 ^ 12 % 512 * 8) % 2 ≡ 1
PageAt (suc level) table va words =
    let word = words (table + va / 2 ^ (12 + 9 * suc level) % 512 * 8) in
    (word % 2 ≡ 1)
    × (word / 2 ^ 7 % 2 ≡ 0)
    × PageAt level (word / 2 ^ 12 % 2 ^ 40 * 2 ^ 12) va words

-- It finds none.
unfoldable pub Unmapped : (pml4 va : ℕ) → (ℕ → ℕ) → Type 0
Unmapped pml4 va words = ¬ PageAt 3 pml4 va words

pub zero_absent : is_present 0 ≡ false
unfolding is_present
zero_absent = refl

pub walk-down :
    (level table va : ℕ) (words : ℕ → ℕ) (entry : ℕ)
    → walk_levels (suc level) table va words ≡ some entry
    → (is_present (words (entry_of table va (suc level))) ≡ true)
      × (is_huge (words (entry_of table va (suc level))) ≡ false)
      × (walk_levels level (pte_addr (words (entry_of table va (suc level)))) va words ≡ some entry)
unfolding walk_levels
walk-down level table va words entry e =
    let w = words (entry_of table va (suc level)) in
    elim (Bool-cases (is_present w)) [
      | inr n ↦ absurd (ground (arith, rw n at e))
      | inl p ↦ elim (Bool-cases (is_huge w)) [
        | inl g ↦ absurd (ground (arith, rw (p, g) at e))
        | inr g ↦ (p, g, rw (p, g) at e)
      ]
    ]

-- `walk` finds the entry where the processor finds a page.
page-walk :
    (level table va : ℕ) (words : ℕ → ℕ)
    → PageAt level table va words
    → (entry : ℕ) × (walk_levels level table va words ≡ some entry)
      × (is_present (words entry) ≡ true)
unfolding PageAt walk_levels entry_of pt_index is_present
page-walk zero table va words p =
    let same : table + 8 * (va / 2 ^ (12 + 9 * 0) % 512) ≡ table + va / 2 ^ 12 % 512 * 8 =
      omega arith in
    (entry_of table va 0, refl, rw same (ground (arith, p)))
page-walk (suc level) table va words (p, small, rest) =
    let (entry, found, present) = page-walk level _ va words rest in
    let same : entry_of table va (suc level) ≡ table + va / 2 ^ (12 + 9 * suc level) % 512 * 8 =
      omega arith in
    let w = words (table + va / 2 ^ (12 + 9 * suc level) % 512 * 8) in
    let there : is_present w ≡ true = ground (arith, p) in
    let no_huge : is_huge w ≡ false = unfold is_huge in ground (arith, small) in
    let next : walk_levels level (pte_addr w) va words ≡ some entry = unfold pte_addr in found in
    (entry, rw (same, there, no_huge) next, present)

pub Absent-Unmapped : (pml4 va : ℕ) (words : ℕ → ℕ) → Absent pml4 va words → Unmapped pml4 va words
unfolding Absent Unmapped walk
Absent-Unmapped pml4 va words (inl e) p =
    let (entry, found, present) = page-walk 3 pml4 va words p in absurd (ground (arith, e, found))
Absent-Unmapped pml4 va words (inr (at, e, absent)) p =
    let (entry, found, present) = page-walk 3 pml4 va words p in
    let same : at ≡ entry = some-equal _ _ (sym e ∙ found) in
    let both = sym absent ∙ ap (λ a. is_present (words a)) same ∙ present in
    absurd (ground (arith, both))

module _ (T : (level table : ℕ) → Type 0) where
  -- The word `a` is an entry for a page.
  unfoldable pub IsLeaf : ℕ → Type 0
  IsLeaf a = (t : ℕ) × T 0 t × (t ≤ a) × (a < t + 0x1000)

  -- Nothing has changed but that entries for pages are now 0.
  unfoldable pub Cleared : (words words' : ℕ → ℕ) → Type 0
  Cleared words words' = (a : ℕ) → (words' a ≡ words a) ⊎ ((words' a ≡ 0) × IsLeaf a)

  pub Cleared-refl : (words : ℕ → ℕ) → Cleared words words
  unfolding Cleared
  Cleared-refl words a = inl refl

  pub Cleared-trans : (u v w : ℕ → ℕ) → Cleared u v → Cleared v w → Cleared u w
  unfolding Cleared
  Cleared-trans u v w c d a = elim (d a) [
    | inr z ↦ inr z
    | inl e ↦ elim (c a) [ inl f ↦ inl (e ∙ f) | inr (z, leaf) ↦ inr (e ∙ z, leaf) ]
  ]

  upper-same :
      (words words' : ℕ → ℕ) (l t a : ℕ)
      → Levels T words
      → Cleared words words'
      → T (suc l) t
      → t ≤ a
      → a < t + 0x1000
      → words' a ≡ words a
  unfolding Cleared IsLeaf
  upper-same words words' l t a h c is lo hi = elim (c a) [
    | inl e ↦ e
    | inr (z, (t', is', lo', hi')) ↦
        let same : t' ≡ t =
          omega (arith, h.aligned 0 t' is', h.aligned (suc l) t is, lo, hi, lo', hi') in
        let there : T 0 t = rw (sym same) is' in
        let e = h.only 0 (suc l) t there is in absurd (omega (arith, e))
  ]

  pub Levels-Cleared :
      (words words' : ℕ → ℕ) → Levels T words → Cleared words words' → Levels T words'
  Levels-Cleared words words' h c = record {
    aligned = h.aligned;
    only = h.only;
    down = λ l t a is lo hi p g.
        let e = upper-same words words' l t a h c is lo hi in
        rw e (h.down l t a is lo hi (sym (ap is_present e) ∙ p) (sym (ap is_huge e) ∙ g));
  }

  pub walk-Cleared :
      (level table va : ℕ) (words words' : ℕ → ℕ)
      → Levels T words
      → Cleared words words'
      → T level table
      → walk_levels level table va words' ≡ walk_levels level table va words
  unfolding walk_levels
  walk-Cleared zero table va words words' h c is = refl
  walk-Cleared (suc level) table va words words' h c is =
      let e = entry_of table va (suc level) in
      let within = entry_of-within table va (suc level) in
      let same = upper-same words words' level table e h c is within.0 (omega (arith, within.1)) in
      elim (Bool-cases (is_present (words e))) [
        | inl p ↦ elim (Bool-cases (is_huge (words e))) [
          | inl g ↦ rw (same, p, g) refl
          | inr g ↦
              let rest =
                walk-Cleared level (pte_addr (words e)) va words words' h c
                  (h.down level table e is within.0 (omega (arith, within.1)) p g) in
              rw (same, p, rest) refl
        ]
        | inr n ↦ rw (same, n) refl
      ]

  pub walk-IsLeaf :
      (level table va : ℕ) (words : ℕ → ℕ) (entry : ℕ)
      → Levels T words
      → T level table
      → walk_levels level table va words ≡ some entry
      → IsLeaf entry
  unfolding walk_levels IsLeaf
  walk-IsLeaf zero table va words entry h is e =
      let within = entry_of-within table va 0 in
      let same : entry_of table va 0 ≡ entry = ground (arith, e) in
      (table, is, omega (arith, same, within.0), omega (arith, same, within.1))
  walk-IsLeaf (suc level) table va words entry h is e =
      let within = entry_of-within table va (suc level) in
      let (p, g, rest) = walk-down level table va words entry e in
      walk-IsLeaf level _ va words entry h
        (h.down level table _ is within.0 (omega (arith, within.1)) p g) rest

  pub zero-Absent :
      (pml4 va : ℕ) (words words' : ℕ → ℕ)
      → Levels T words
      → T 3 pml4
      → Cleared words words'
      → Absent pml4 va words
      → Absent pml4 va words'
  unfolding Absent walk Cleared
  zero-Absent pml4 va words words' h is c (inl none_found) =
      inl (walk-Cleared 3 pml4 va words words' h c is ∙ none_found)
  zero-Absent pml4 va words words' h is c (inr (entry, found, absent)) =
      inr (entry, walk-Cleared 3 pml4 va words words' h c is ∙ found, still_absent (c entry))
    where
      still_absent :
          (words' entry ≡ words entry) ⊎ ((words' entry ≡ 0) × IsLeaf entry)
          → is_present (words' entry) ≡ false
      still_absent (inl e) = ap is_present e ∙ absent
      still_absent (inr (z, leaf)) = ap is_present z ∙ zero_absent
