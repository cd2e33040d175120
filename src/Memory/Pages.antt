-- ===== src/Memory/Pages.antt =====
-- `allocate_page` and `free_page` on all areas.
use bayos_kernel.Common.{
  ℕ, ◌+◌, ◌-◌, ◌*◌, ◌/◌, ◌≤◌, ◌<◌, ◌≡◌, refl, ap, ◌∙◌, ◌⊎◌, inl, inr, Bool, true, false, ◌&&◌, ◌||◌,
  List, [], ◌∷◌, arith, leb, ltb, if◌then◌else◌, Bool-cases, u64_mod, add64, sub64,
}
use bayos_kernel.Memory.{
  Area, BitmapAllocator, Page, halted, null, page, behind, allocate_page, free_page,
}
use bayos_kernel.Memory.PageBits.{page_bit}
use bayos_kernel.Memory.Areas.{
  IsArea, covers, in_area, area_used, take_page, drop_page, allocate_in_lem, take_page-IsArea,
  area_used-take_page, drop_page-take_page,
}

-- The areas share no page.
abbrev pub Beside : Area → List Area → Type 0
Beside a [] = Unit
Beside a (b ∷ bs) =
    ((a.first_page + a.pages_count * 0x1000 ≤ b.first_page)
      ⊎ (b.first_page + b.pages_count * 0x1000 ≤ a.first_page))
    × Beside a bs

abbrev pub IsAllocator : BitmapAllocator → Type 0
IsAllocator [] = Unit
IsAllocator (a ∷ areas) = IsArea a × Beside a areas × IsAllocator areas

-- whether the page that holds the address `q` is in use
abbrev pub is_used : BitmapAllocator → ℕ → Bool
is_used [] q = false
is_used (a ∷ areas) q = if in_area a q then area_used a q else is_used areas q

abbrev pub AllFull : BitmapAllocator → Type 0
AllFull [] = Unit
AllFull (a ∷ areas) = (a.pages_count ≤ a.used) × AllFull areas

-- whether `p` is where a page of an area begins
abbrev pub IsPage : BitmapAllocator → ℕ → Type 0
IsPage [] p = ⊥
IsPage (a ∷ areas) p =
    ((k : ℕ) × (k < a.pages_count) × (p ≡ a.first_page + k * 0x1000)) ⊎ IsPage areas p

-- What the caller of `allocate_page` is given.
pub record Given (areas : BitmapAllocator) (p : ℕ) (areas' : BitmapAllocator) : Type 0 where
  pub is_page : IsPage areas p
  pub was_free : is_used areas p ≡ false
  pub used : (q : ℕ) → is_used areas' q ≡ (covers p q || is_used areas q)
  pub valid : IsAllocator areas'
  pub beside : (b : Area) → Beside b areas → Beside b areas'
  pub undo : free_page areas' p ≡ areas

abbrev pub Outcome : BitmapAllocator → Page → Type 0
Outcome areas halted = ⊥
Outcome areas null = AllFull areas
Outcome areas (page p areas') = Given areas p areas'

-- An area holds no part of a page of the areas beside it.
pub outside :
    (a : Area) (areas : BitmapAllocator) (p q : ℕ)
    → Beside a areas
    → IsPage areas p
    → covers p q ≡ true
    → in_area a q ≡ false
outside a [] p q b is c = absurd is
outside a (d ∷ areas) p q b (inl (k, lt, e)) c = ground (arith, b.0, e)
outside a (d ∷ areas) p q b (inr is) c = outside a areas p q b.1 is c

-- The test of `free_page`, whose sum does not overflow.
range_test :
    (a : Area) (p : ℕ)
    → IsArea a
    → (leb a.first_page p && ltb p (add64 a.first_page (a.pages_count * 0x1000))) ≡ in_area a p
range_test a p is =
    let sum : add64 a.first_page (a.pages_count * 0x1000) ≡ a.first_page + a.pages_count * 0x1000 =
      omega (arith, is.below) in
    rw sum

pub free_page-skip :
    (a : Area) (areas : BitmapAllocator) (p : ℕ)
    → IsArea a
    → in_area a p ≡ false
    → free_page (a ∷ areas) p ≡ a ∷ free_page areas p
unfolding free_page
free_page-skip a areas p is out = rw (range_test a p is, out)

module _ (a : Area) (areas : BitmapAllocator) (is : IsArea a) (b : Beside a areas) where
  pub covers_self : (p : ℕ) → covers p p ≡ true
  covers_self p = ground arith

  Given-behind :
      (p : ℕ) (areas' : BitmapAllocator) → Given areas p areas' → Given (a ∷ areas) p (a ∷ areas')
  Given-behind p areas' g = record {
    is_page = inr g.is_page;
    was_free = rw out g.was_free;
    used = λ q. elim (Bool-cases (covers p q)) [
      | inl c ↦ rw (outside a areas p q b g.is_page c) (g.used q)
      | inr c ↦ ground (arith, g.used q)
    ];
    valid = (is, g.beside a b, g.valid);
    beside = λ d bd. (bd.0, g.beside d bd.1);
    undo = free_page-skip a areas' p is out ∙ ap (λ r. a ∷ r) g.undo;
  }
    where
      out : in_area a p ≡ false
      out = outside a areas p p b g.is_page (covers_self p)

  Outcome-behind :
      (r : Page) → a.pages_count ≤ a.used → Outcome areas r → Outcome (a ∷ areas) (behind a r)
  Outcome-behind halted full o = o
  Outcome-behind null full o = (full, o)
  Outcome-behind (page p areas') full o = Given-behind p areas' o

  module _ (k : ℕ) (within : k < a.pages_count) where
    abbrev pub first : ℕ
    first = a.first_page + k * 0x1000

    pub in_first : (q : ℕ) → covers first q ≡ true → in_area a q ≡ true
    in_first q c = ground arith

    pub index_first : (first - a.first_page) / 0x1000 ≡ k
    index_first = omega arith

    pub free_page-here :
        (u : ℕ) (bitmap : List ℕ)
        → 1 ≤ u
        → u < u64_mod
        → free_page (record a { used = u; bitmap = bitmap } ∷ areas) first
          ≡ drop_page (record a { used = u; bitmap = bitmap }) k ∷ areas
    unfolding free_page
    free_page-here u bitmap pos small =
        rw (range_test a first is, in_first first (covers_self first), index_first)
          (let less : sub64 u 1 ≡ u - 1 = omega arith in rw less)

    Given-here :
        page_bit a.bitmap k ≡ false
        → IsAllocator areas
        → a.used < a.pages_count
        → Given (a ∷ areas) first (take_page a k ∷ areas)
    Given-here free valid room = record {
      is_page = inl (k, within, refl);
      was_free = rw (in_first first (covers_self first), index_first) free;
      used = λ q. elim (Bool-cases (in_area a q)) [
        | inl i ↦ rw i (area_used-take_page is k within q i)
        | inr o ↦ ground (arith, in_first q)
      ];
      valid = (take_page-IsArea is k within free, b, valid);
      beside = λ d bd. bd;
      undo =
          free_page-here (a.used + 1) _ (omega arith) (omega (arith, is.small))
          ∙ ap (λ d. d ∷ areas) (drop_page-take_page is k within free);
    }

-- On a well-formed allocator `allocate_page` never halts the processor. It returns `NULL` only if
-- every page is in use. Any other result is the first byte of a page of an area that was not in use;
-- it is in use afterwards, no other page changes, the allocator stays well formed, and `free_page`
-- of the result gives the allocator back as it was.
pub allocate_page-Outcome :
    (areas : BitmapAllocator) → IsAllocator areas → Outcome areas (allocate_page areas)
unfolding allocate_page
allocate_page-Outcome [] v = tt
allocate_page-Outcome (a ∷ areas) (is, b, v) = elim (Bool-cases (leb a.pages_count a.used)) [
  | inl full ↦ rw full (
      Outcome-behind a areas is b (allocate_page areas) (ground arith)
        (allocate_page-Outcome areas v))
  | inr room ↦
      let less : a.used < a.pages_count = ground arith in
      let (k, run, within, free) = allocate_in_lem is areas less in
      rw (room, run) (Given-here a areas is b k within free v less)
]
