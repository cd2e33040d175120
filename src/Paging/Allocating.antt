-- ===== src/Paging/Allocating.antt =====
-- `allocate_region` of src/memory.c against `walk`.
use bayos_kernel.Paging.{
  Tables, is_present, is_huge, pte_addr, entry_of, map_memory_page, walk_levels, walk,
  page_round_down, allocate_loop, allocate_region,
}
use bayos_kernel.Paging.Path.{
  IsPath, Extends, Extends-refl, Extends-trans, entry_of-within, pte_addr-small,
}
use bayos_kernel.Paging.Entries.{HasPages}
use bayos_kernel.Paging.Mapping.{walk-step, map_memory_page-walk}
use bayos_kernel.Paging.Unmapping.{walk-down, Levels}
use bayos_kernel.Paging.Spaces.{IsSpace}
use bayos_kernel.Paging.Regions.{fewer, map_levels-Laid}
use bayos_kernel.Common.{
  add64, u64_mod, ℕ, zero, suc, ◌+◌, ◌-◌, ◌*◌, ◌/◌, ◌%◌, ◌≤◌, ◌<◌, ◌≡◌, refl, sym, ap, ◌∙◌, inl,
  inr, true, false, some, arith, Bool-cases, some-equal, ltb,
}

-- `walk` finds an entry for the address, and it is present.
unfoldable pub IsMapped : (pml4 va : ℕ) → (ℕ → ℕ) → Type 0
IsMapped pml4 va words =
    (entry : ℕ) × (walk pml4 va words ≡ some entry) × (is_present (words entry) ≡ true)

walk-kept :
    (T : (level table : ℕ) → Type 0) (level table va entry : ℕ) (s s' : Tables)
    → IsSpace T s
    → T level table
    → Extends s s'
    → walk_levels level table va s.words ≡ some entry
    → is_present (s.words entry) ≡ true
    → (walk_levels level table va s'.words ≡ some entry) × (is_present (s'.words entry) ≡ true)
unfolding walk_levels
walk-kept T zero table va entry s s' h is x e p =
    let within = entry_of-within table va 0 in
    let same : entry_of table va 0 ≡ entry = some-equal _ _ e in
    let kept =
      x.kept table entry (h.tables 0 table is) (omega (arith, same, within.0))
        (omega (arith, same, within.1)) p in
    (e, ap is_present kept ∙ p)
walk-kept T (suc level) table va entry s s' h is x e p =
    let at = entry_of table va (suc level) in
    let within = entry_of-within table va (suc level) in
    let (there, flat, rest) = walk-down level table va s.words entry e in
    let (low, next) = h.down level table at is within.0 (omega (arith, within.1)) there flat in
    let kept =
      x.kept table at (h.tables (suc level) table is) within.0 (omega (arith, within.1)) there in
    let lower : T level (pte_addr (s.words at)) = rw (pte_addr-small (s.words at) low) next in
    let (found, present) =
      walk-kept T level (pte_addr (s.words at)) va entry s s' h lower x rest p in
    let below : walk_levels level (pte_addr (s'.words at)) va s'.words ≡ some entry =
      rw kept found in
    (
      walk-step level table va s'.words (ap is_present kept ∙ there) (ap is_huge kept ∙ flat) below,
      present,
    )

pub IsMapped-kept :
    (T : (level table : ℕ) → Type 0) (pml4 va : ℕ) (s s' : Tables)
    → IsSpace T s
    → T 3 pml4
    → Extends s s'
    → IsMapped pml4 va s.words
    → IsMapped pml4 va s'.words
unfolding IsMapped walk
IsMapped-kept T pml4 va s s' h is x (entry, e, p) =
    let (found, present) = walk-kept T 3 pml4 va entry s s' h is x e p in (entry, found, present)

-- The tables behind one or more calls of `map_memory_page`, with `n` free pages.
pub record After (T : (level table : ℕ) → Type 0) (n : ℕ) (s s' : Tables) : Type 1 where
  pub Now : (level table : ℕ) → Type 0
  pub more : (l t : ℕ) → T l t → Now l t
  pub space : IsSpace Now s'
  pub pages : HasPages n s'
  pub extends : Extends s s'
  pub paths : (l t va : ℕ) → T l t → IsPath l t va s → IsPath l t va s'

-- On the way to the pages from `va` to `stop` there is no huge page, and no entry of 2 ^ 52 or above.
unfoldable pub AllPaths : (cr3 va stop : ℕ) → Tables → Type 0
AllPaths cr3 va stop s = (j : ℕ) → va + j * 0x1000 < stop → IsPath 3 cr3 (va + j * 0x1000) s

pub space-Levels : (T : (level table : ℕ) → Type 0) (s : Tables) → IsSpace T s → Levels T s.words
space-Levels T s is = record {
  aligned = λ l t i. (is.tables l t i).aligned;
  only = is.only;
  down = λ l t a i lo hi p g.
      let (low, next) = is.down l t a i lo hi p g in rw (pte_addr-small (s.words a) low) next;
}

pub first-IsPath :
    (cr3 va stop : ℕ) (s : Tables) → va < stop → AllPaths cr3 va stop s → IsPath 3 cr3 va s
unfolding AllPaths
first-IsPath cr3 va stop s l q =
    let e : va + 0 * 0x1000 ≡ va = omega arith in rw (sym e) (q 0 (omega (arith, l)))

pub later-AllPaths :
    (T : (level table : ℕ) → Type 0) (cr3 va stop n : ℕ) (s s1 : Tables) (k : ℕ)
    (a : After T k s s1)
    → T 3 cr3
    → AllPaths cr3 va stop s
    → AllPaths cr3 (va + 0x1000) stop s1
unfolding AllPaths
later-AllPaths T cr3 va stop n s s1 k a is q j l =
    let e : va + suc j * 0x1000 ≡ va + 0x1000 + j * 0x1000 = omega arith in
    a.paths 3 cr3 _ is (rw (sym e) (q (suc j) (omega (arith, l))))

module _ (cr3 flags : ℕ) (odd : flags % 2 ≡ 1) (small : flags < 128) where
  pub map_one :
      (T : (level table : ℕ) → Type 0) (va n : ℕ) (s : Tables)
      → HasPages (n + 4) s
      → IsSpace T s
      → T 3 cr3
      → IsPath 3 cr3 va s
      → (s' : Tables) × (map_memory_page cr3 va flags s ≡ some s')
        × IsMapped cr3 va s'.words
        × After T n s s'
  unfolding map_memory_page IsMapped
  map_one T va n s has h is path =
      let m = map_levels-Laid T 3 cr3 va flags n s odd small has h is path in
      let (s', entry, run, found, present, extends) =
        map_memory_page-walk cr3 va flags s odd small (fewer 4 (n + 4) s (omega arith) has) path in
      let same : m.tables ≡ s' = some-equal _ _ (sym m.run ∙ run) in
      (
        s',
        run,
        (entry, found, present),
        record {
          Now = m.Now;
          more = m.more;
          space = rw (sym same) m.space;
          pages = rw (sym same) m.pages;
          extends = extends;
          paths = λ l t va' i q. rw (sym same) (m.paths l t va' i q);
        },
      )

  loop-stop :
      (rounds va stop : ℕ) (s : Tables)
      → stop ≤ va
      → allocate_loop rounds cr3 va stop flags s ≡ some s
  unfolding allocate_loop
  loop-stop zero va stop s l = let test : ltb va stop ≡ false = ground (arith, l) in rw test refl
  loop-stop (suc rounds) va stop s l =
      let test : ltb va stop ≡ false = ground (arith, l) in rw test refl

  loop-step :
      (rounds va stop : ℕ) (s s1 : Tables)
      → va < stop
      → stop + 0x1000 ≤ u64_mod
      → map_memory_page cr3 va flags s ≡ some s1
      → allocate_loop (suc rounds) cr3 va stop flags s
        ≡ allocate_loop rounds cr3 (va + 0x1000) stop flags s1
  unfolding allocate_loop
  loop-step rounds va stop s s1 l b e =
      let test : ltb va stop ≡ true = ground (arith, l) in
      let next : add64 va 0x1000 ≡ va + 0x1000 = omega (arith, l, b) in rw (test, e, next) refl

  -- Each page from `va` on is mapped.
  unfoldable pub AllMapped : (va stop : ℕ) → (ℕ → ℕ) → Type 0
  AllMapped va stop words = (j : ℕ) → va + j * 0x1000 < stop → IsMapped cr3 (va + j * 0x1000) words

  pub first_page :
      (va stop : ℕ) (words : ℕ → ℕ)
      → IsMapped cr3 va words
      → AllMapped (va + 0x1000) stop words
      → AllMapped va stop words
  unfolding AllMapped
  first_page va stop words here later zero l =
      let e : va + 0 * 0x1000 ≡ va = omega arith in rw e here
  first_page va stop words here later (suc i) l =
      let e : va + suc i * 0x1000 ≡ va + 0x1000 + i * 0x1000 = omega arith in
      rw e (later i (omega (arith, l)))

  allocate_loop-AllMapped :
      (T : (level table : ℕ) → Type 0) (rounds count va stop n : ℕ) (s : Tables)
      → stop ≤ va + rounds * 0x1000
      → stop ≤ va + count * 0x1000
      → stop + 0x1000 ≤ u64_mod
      → HasPages (n + 4 * count) s
      → IsSpace T s
      → T 3 cr3
      → AllPaths cr3 va stop s
      → (s' : Tables) × (allocate_loop rounds cr3 va stop flags s ≡ some s')
        × AllMapped va stop s'.words
        × After T n s s'
  allocate_loop-AllMapped T zero count va stop n s r c b64 has h is free_of_huge = (
    s,
    loop-stop zero va stop s (omega (arith, r)),
    (unfold AllMapped in λ j l. absurd (omega (arith, r, l))),
    record {
      Now = T;
      more = λ l t i. i;
      space = h;
      pages = fewer n (n + 4 * count) s (omega arith) has;
      extends = Extends-refl s;
      paths = λ l t va' i q. q;
    },
  )
  allocate_loop-AllMapped T (suc rounds) zero va stop n s r c b64 has h is free_of_huge = (
    s,
    loop-stop (suc rounds) va stop s (omega (arith, c)),
    (unfold AllMapped in λ j l. absurd (omega (arith, c, l))),
    record {
      Now = T;
      more = λ l t i. i;
      space = h;
      pages = fewer n (n + 4 * 0) s (omega arith) has;
      extends = Extends-refl s;
      paths = λ l t va' i q. q;
    },
  )
  allocate_loop-AllMapped T (suc rounds) (suc count) va stop n s r c b64 has h is free_of_huge =
      elim (Bool-cases (ltb va stop)) [
        | inr f ↦
            let over : stop ≤ va = ground (arith, f) in
            (
              s,
              loop-stop (suc rounds) va stop s over,
              (unfold AllMapped in λ j l. absurd (omega (arith, over, l))),
              record {
                Now = T;
                more = λ l t i. i;
                space = h;
                pages = fewer n (n + 4 * suc count) s (omega arith) has;
                extends = Extends-refl s;
                paths = λ l t va' i q. q;
              },
            )
        | inl t ↦
            let (s1, run, here, a) =
              map_one T va (n + 4 * count) s
                (fewer (n + 4 * count + 4) (n + 4 * suc count) s (omega arith) has) h is
                (first-IsPath cr3 va stop s (ground (arith, t)) free_of_huge) in
            let (s', runs, later, b) =
              allocate_loop-AllMapped a.Now rounds count (va + 0x1000) stop n s1 (omega (arith, r))
                (omega (arith, c)) b64 a.pages a.space (a.more 3 cr3 is)
                (later-AllPaths T cr3 va stop n s s1 _ a is free_of_huge) in
            (
              s',
              loop-step rounds va stop s s1 (ground (arith, t)) b64 run ∙ runs,
              first_page va stop s'.words
                  (IsMapped-kept a.Now cr3 va s1 s' a.space (a.more 3 cr3 is) b.extends here) later,
              record {
                Now = b.Now;
                more = λ l x i. b.more l x (a.more l x i);
                space = b.space;
                pages = b.pages;
                extends = Extends-trans a.extends b.extends;
                paths = λ l x va' i q. b.paths l x va' (a.more l x i) (a.paths l x va' i q);
              },
            )
      ]

  -- `allocate_region` of a region that ends a page below 2 ^ 64 at least, with four free pages for each of its
  -- pages, in tables of four levels with no huge page on the way to the pages of the region, returns, and then every page
  -- of the region is mapped. The tables in use stay well formed, no entry that was there has changed, and no page in
  -- use has become free.
  pub allocate_region-AllMapped :
      (T : (level table : ℕ) → Type 0) (start stop count n : ℕ) (s : Tables)
      → stop ≤ page_round_down start + count * 0x1000
      → stop + 0x1000 ≤ u64_mod
      → HasPages (n + 4 * count) s
      → IsSpace T s
      → T 3 cr3
      → AllPaths cr3 (page_round_down start) stop s
      → (s' : Tables) × (allocate_region cr3 start stop flags s ≡ some s')
        × AllMapped (page_round_down start) stop s'.words
        × After T n s s'
  unfolding allocate_region
  allocate_region-AllMapped T start stop count n s c b64 has h is free_of_huge =
      allocate_loop-AllMapped T ((stop - page_round_down start) / 0x1000 + 2) count
        (page_round_down start) stop n s (omega arith) c b64 has h is free_of_huge
