-- ===== src/Paging/Frames.antt =====
-- What page tables need of the allocator of pages: a frame that was free, page aligned and below 2 ^ 52.
use bayos_kernel.Paging.{alloc_page_or_halt}
use bayos_kernel.Memory.{Area, BitmapAllocator, Page, halted, null, page, behind, allocate_page}
use bayos_kernel.Memory.Areas.{in_area, take_page, allocate_in_lem}
use bayos_kernel.Memory.Pages.{IsAllocator, is_used, IsPage, Given, Outcome, allocate_page-Outcome}
use bayos_kernel.Common.{
  ℕ, ◌+◌, ◌-◌, ◌*◌, ◌%◌, ◌^◌, ◌≤◌, ◌<◌, ◌≡◌, refl, ap, inl, inr, Bool, true, false, not, ◌&&◌, ◌||◌,
  some, [], ◌∷◌, arith, leb, Bool-cases,
}

-- Every area lies page aligned between the first page and 2 ^ 52.
unfoldable pub AllAligned : BitmapAllocator → Type 0
AllAligned [] = Unit
AllAligned (a ∷ areas) =
    (a.first_page % 0x1000 ≡ 0)
    × (0 < a.first_page)
    × (a.first_page + a.pages_count * 0x1000 ≤ 2 ^ 52)
    × AllAligned areas

unfoldable pub in_areas : BitmapAllocator → ℕ → Bool
in_areas [] q = false
in_areas (a ∷ areas) q = in_area a q || in_areas areas q

-- whether the page with the address `q` can still be allocated
unfoldable pub is_free : BitmapAllocator → ℕ → Bool
is_free areas q = in_areas areas q && not (is_used areas q)

unfoldable pub free_count : BitmapAllocator → ℕ
free_count [] = 0
free_count (a ∷ areas) = a.pages_count - a.used + free_count areas

page-aligned :
    (areas : BitmapAllocator) (p : ℕ)
    → AllAligned areas
    → IsPage areas p
    → (p % 0x1000 ≡ 0) × (0 < p) × (p + 0x1000 ≤ 2 ^ 52) × (in_areas areas p ≡ true)
unfolding AllAligned in_areas
page-aligned [] p al is = absurd is
page-aligned (a ∷ areas) p (al, nn, top, rest) (inl (k, lt, e)) =
    (omega (arith, al, e), omega (arith, nn, e), omega (arith, top, lt, e), ground (arith, e, lt))
page-aligned (a ∷ areas) p (al, nn, top, rest) (inr is) =
    let (a1, a2, a3, a4) = page-aligned areas p rest is in (a1, a2, a3, ground (arith, a4))

-- What `allocate_page` keeps of the areas, and takes of the free pages.
Keeps : BitmapAllocator → Page → Type 0
Keeps areas halted = Unit
Keeps areas null = free_count areas ≡ 0
Keeps areas (page p areas') =
    ((q : ℕ) → in_areas areas' q ≡ in_areas areas q)
    × (AllAligned areas → AllAligned areas')
    × (free_count areas' + 1 ≡ free_count areas)

Keeps-behind :
    (a : Area) (areas : BitmapAllocator) (r : Page)
    → a.pages_count ≤ a.used
    → Keeps areas r
    → Keeps (a ∷ areas) (behind a r)
unfolding Keeps in_areas AllAligned free_count
Keeps-behind a areas halted full k = tt
Keeps-behind a areas null full k = omega (arith, full, k)
Keeps-behind a areas (page p areas') full (k, al, n) =
    ((λ q. ap (λ b. in_area a q || b) (k q)), (λ h. (h.0, h.1, h.2, al h.3)), omega (arith, n))

Keeps-here :
    (a : Area) (areas : BitmapAllocator) (k p : ℕ)
    → a.used < a.pages_count
    → Keeps (a ∷ areas) (page p (take_page a k ∷ areas))
unfolding Keeps in_areas AllAligned free_count
Keeps-here a areas k p room = ((λ q. refl), (λ h. h), omega (arith, room))

allocate_page-Keeps :
    (areas : BitmapAllocator) → IsAllocator areas → Keeps areas (allocate_page areas)
unfolding allocate_page
allocate_page-Keeps [] v = unfold Keeps free_count in refl
allocate_page-Keeps (a ∷ areas) (is, b, v) = elim (Bool-cases (leb a.pages_count a.used)) [
  | inl full ↦
      rw full
        (Keeps-behind a areas (allocate_page areas) (ground arith) (allocate_page-Keeps areas v))
  | inr room ↦
      let less : a.used < a.pages_count = ground arith in
      let (k, run, within, free) = allocate_in_lem is areas less in
      rw (room, run) (Keeps-here a areas k _ less)
]

-- What the caller of `alloc_page_or_halt` gets while a page is free.
pub record Fresh (areas : BitmapAllocator) : Type 0 where
  pub frame : ℕ
  pub areas' : BitmapAllocator
  pub run : alloc_page_or_halt areas ≡ some (frame, areas')
  pub aligned : frame % 0x1000 ≡ 0
  pub nonnull : 0 < frame
  pub small : frame + 0x1000 ≤ 2 ^ 52
  pub was_free : is_free areas frame ≡ true
  pub now_used : is_free areas' frame ≡ false
  pub still_used : (q : ℕ) → is_free areas q ≡ false → is_free areas' q ≡ false
  pub count : free_count areas' + 1 ≡ free_count areas
  pub valid : IsAllocator areas'
  pub all_aligned : AllAligned areas'

page-Fresh :
    (areas areas' : BitmapAllocator) (p : ℕ)
    → allocate_page areas ≡ page p areas'
    → AllAligned areas
    → Given areas p areas'
    → Keeps areas (page p areas')
    → Fresh areas
unfolding is_free Keeps
page-Fresh areas areas' p run al given (same, keeps, n) =
    let (a1, a2, a3, a4) = page-aligned areas p al given.is_page in
    record {
      frame = p;
      areas' = areas';
      run = unfold alloc_page_or_halt in rw (run, alloc_page_or_halt) (ground (arith, a2));
      aligned = a1;
      nonnull = a2;
      small = a3;
      was_free = ground (arith, a4, given.was_free);
      now_used = let used = given.used p in ground (arith, used);
      still_used =
          λ q h. let used = given.used q in let kept = same q in ground (arith, used, kept, h);
      count = n;
      valid = given.valid;
      all_aligned = keeps al;
    }

by_outcome :
    (areas : BitmapAllocator) (r : Page)
    → allocate_page areas ≡ r
    → AllAligned areas
    → 0 < free_count areas
    → Outcome areas r
    → Keeps areas r
    → Fresh areas
unfolding Keeps
by_outcome areas halted run al h o k = absurd o
by_outcome areas null run al h o k = absurd (omega (arith, h, k))
by_outcome areas (page p areas') run al h o k = page-Fresh areas areas' p run al o k

-- While a page is free, `alloc_page_or_halt` returns one.
pub alloc_page_or_halt-Fresh :
    (areas : BitmapAllocator)
    → IsAllocator areas
    → AllAligned areas
    → 0 < free_count areas
    → Fresh areas
alloc_page_or_halt-Fresh areas v al h =
    by_outcome areas (allocate_page areas) refl al h (allocate_page-Outcome areas v)
      (allocate_page-Keeps areas v)
