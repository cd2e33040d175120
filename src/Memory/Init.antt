-- ===== src/Memory/Init.antt =====
-- `bitmap_allocator_init` makes a well-formed allocator with every page free.
use bayos_kernel.Memory.{bitmap_allocator_init, init_areas}
use bayos_kernel.Memory.PageBits.{IsBytes}
use bayos_kernel.Common.{replicate}
use bayos_kernel.Memory.{MemmapEntry, init_area}
use bayos_kernel.Common.{
  ℕ, zero, suc, ◌+◌, ◌-◌, ◌*◌, ◌/◌, ◌%◌, ◌≤◌, ◌<◌, ◌≡◌, ◌≢◌, refl, sym, ap, ◌⊎◌, inl, inr, false,
  true, ltb, ◌&&◌, some, List, [], ◌∷◌, arith, leb, Bool-cases, length, get_or, u64_mod, add64,
  sub64,
}
use bayos_kernel.Memory.{Area, BitmapAllocator}
use bayos_kernel.Memory.PageBits.{page_bit, set_count}
use bayos_kernel.Memory.Areas.{IsArea, area_used}
use bayos_kernel.Memory.Pages.{Beside, IsAllocator, is_used}
use bayos_kernel.Memory.Bits.{bit_at_zero}
use bayos_kernel.Memory.HeaderPages.{IsHeader, calc_header_pages_lem}

abbrev zeros : ℕ → List ℕ
zeros n = replicate n 0

get_or-replicate : (n i : ℕ) → ◌≡◌ {A = ℕ} (get_or (zeros n) i 0) 0
get_or-replicate zero i = refl
get_or-replicate (suc n) zero = refl
get_or-replicate (suc n) (suc i) = get_or-replicate n i

replicate-IsBytes : (n : ℕ) → IsBytes (zeros n)
replicate-IsBytes zero = tt
replicate-IsBytes (suc n) = (omega arith, replicate-IsBytes n)

length-replicate : (n : ℕ) → length (zeros n) ≡ n
length-replicate zero = refl
length-replicate (suc n) = ap suc (length-replicate n)

page_bit-replicate : (n k : ℕ) → page_bit (zeros n) k ≡ false
page_bit-replicate n k = rw (get_or-replicate n (k / 8)) (bit_at_zero (k % 8))

set_count-replicate : (n k : ℕ) → set_count k (page_bit (zeros n)) ≡ 0
set_count-replicate n zero = refl
set_count-replicate n (suc k) = ground (arith, page_bit-replicate n k, set_count-replicate n k)

-- An entry of the memory map that the allocator can take: its pages fit `find_unused_page`, and
-- `calc_header_pages` returns for them.
pub record IsEntry (e : MemmapEntry) : Type 0 where
  pub small : e.length / 0x1000 ≤ 1_000_000
  pub below : e.base + e.length < u64_mod
  pub settles : e.length / 0x1000 % 32769 ≢ 32578

-- The area lies in its entry, behind its header, which has as many pages as it needs; it has all the other pages of the
-- entry, and none of them is in use.
pub record Inits (e : MemmapEntry) (a : Area) : Type 0 where
  pub valid : IsArea a
  pub unused : (q : ℕ) → area_used a q ≡ false
  pub from : e.base + 0x1000 ≤ a.first_page
  pub to : a.first_page + a.pages_count * 0x1000 ≤ e.base + e.length
  pub header : ℕ
  pub least : IsHeader (e.length / 0x1000) header
  pub first : a.first_page ≡ e.base + header * 0x1000
  pub pages : a.pages_count ≡ e.length / 0x1000 - header

module _ (e : MemmapEntry) (is : IsEntry e) (h : ℕ) (header : IsHeader (e.length / 0x1000) h) where
  abbrev area : Area
  area = record {
    first_page = e.base + h * 0x1000;
    pages_count = e.length / 0x1000 - h;
    used = 0;
    bitmap = zeros (h * 0x1000 - 24);
  }

  area-Inits : Inits e area
  area-Inits = record {
    valid = record {
      some_page = omega (arith, header.below);
      small = omega (arith, is.small);
      below = omega (arith, is.below, header.below);
      room = omega (arith, length-replicate (h * 0x1000 - 24), header.room, header.below);
      bytes = replicate-IsBytes (h * 0x1000 - 24);
      counted = sym (set_count-replicate (h * 0x1000 - 24) (e.length / 0x1000 - h));
    };
    unused = λ q. page_bit-replicate (h * 0x1000 - 24) ((q - (e.base + h * 0x1000)) / 0x1000);
    from = omega (arith, header.pos);
    to = omega (arith, header.below);
    header = h;
    least = header;
    first = refl;
    pages = refl;
  }

  area_lem :
      record {
        first_page = add64 e.base (h * 0x1000);
        pages_count = sub64 (e.length / 0x1000) h;
        used = 0;
        bitmap = zeros (h * 0x1000 - 24);
      }
      ≡ area
  area_lem =
      let start : add64 e.base (h * 0x1000) ≡ e.base + h * 0x1000 =
        omega (arith, is.below, header.below) in
      let left : sub64 (e.length / 0x1000) h ≡ e.length / 0x1000 - h =
        omega (arith, is.small, header.below) in
      rw (start, left)

init_area-Inits :
    (fuel : ℕ) (e : MemmapEntry)
    → 0x2000 ≤ e.length
    → IsEntry e
    → (a : Area) × (init_area (suc (suc (suc fuel))) e ≡ some a) × Inits e a
unfolding init_area
init_area-Inits fuel e long is =
    let (h, run, header) =
      calc_header_pages_lem fuel (e.length / 0x1000) (omega arith) (omega (arith, is.small))
        is.settles in
    (
      area e is h header,
      rw run (ap (λ a. some a) (area_lem e is h header)),
      area-Inits e is h header,
    )

-- The entries share no memory.
abbrev pub EntryBeside : MemmapEntry → List MemmapEntry → Type 0
EntryBeside e [] = Unit
EntryBeside e (d ∷ ds) =
    ((e.base + e.length ≤ d.base) ⊎ (d.base + d.length ≤ e.base)) × EntryBeside e ds

abbrev pub IsMemmap : List MemmapEntry → Type 0
IsMemmap [] = Unit
IsMemmap (e ∷ es) = IsEntry e × EntryBeside e es × IsMemmap es

-- Each entry that is usable and has two pages has its area, in their order, and there are no other areas.
pub data Covers : List MemmapEntry → BitmapAllocator → Type 0 where
  none_left : Covers [] []
  takes :
      {e : MemmapEntry} {es : List MemmapEntry} {a : Area} {areas : BitmapAllocator}
      → e.usable ≡ true
      → 0x2000 ≤ e.length
      → Inits e a
      → Covers es areas
      → Covers (e ∷ es) (a ∷ areas)
  skips :
      {e : MemmapEntry} {es : List MemmapEntry} {areas : BitmapAllocator}
      → (e.usable ≡ false) ⊎ (e.length < 0x2000)
      → Covers es areas
      → Covers (e ∷ es) areas

Covers-length :
    {es : List MemmapEntry} {areas : BitmapAllocator} → Covers es areas → length areas ≤ length es
Covers-length none_left = omega arith
Covers-length (takes u l i c) = let rest = Covers-length c in omega (arith, rest)
Covers-length (skips u c) = let rest = Covers-length c in omega (arith, rest)

-- What `bitmap_allocator_init` makes of the memory map.
pub record Ready (es : List MemmapEntry) (areas : BitmapAllocator) : Type 0 where
  pub valid : IsAllocator areas
  pub unused : (q : ℕ) → is_used areas q ≡ false
  pub covers : Covers es areas
  pub beside : (e : MemmapEntry) (a : Area) → Inits e a → EntryBeside e es → Beside a areas

Ready-skip :
    (e : MemmapEntry) (es : List MemmapEntry) (areas : BitmapAllocator)
    → (e.usable ≡ false) ⊎ (e.length < 0x2000)
    → Ready es areas
    → Ready (e ∷ es) areas
Ready-skip e es areas left r = record {
  valid = r.valid;
  unused = r.unused;
  covers = skips left r.covers;
  beside = λ d a i b. r.beside d a i b.1;
}

Ready-cons :
    (e : MemmapEntry) (es : List MemmapEntry) (a : Area) (areas : BitmapAllocator)
    → e.usable ≡ true
    → 0x2000 ≤ e.length
    → EntryBeside e es
    → Inits e a
    → Ready es areas
    → Ready (e ∷ es) (a ∷ areas)
Ready-cons e es a areas u l b i r = record {
  covers = takes u l i r.covers;
  valid = (i.valid, r.beside e a i b, r.valid);
  unused = λ q. ground (arith, i.unused q, r.unused q);
  beside = λ d c j k. (ground (arith, k.0, i.from, i.to, j.from, j.to), r.beside d c j k.1);
}

init_areas-Ready :
    (fuel : ℕ) (es : List MemmapEntry)
    → IsMemmap es
    → (areas : BitmapAllocator) × (init_areas (suc (suc (suc fuel))) es ≡ some areas)
      × Ready es areas
unfolding init_areas
init_areas-Ready fuel [] is = (
  [],
  refl,
  record { valid = tt; unused = λ q. refl; covers = none_left; beside = λ e a i b. tt },
)
init_areas-Ready fuel (e ∷ es) (is, b, rest) =
    let (areas, run, r) = init_areas-Ready fuel es rest in
    elim (Bool-cases (e.usable && leb 0x2000 e.length)) [
      | inl t ↦
          let (a, got, i) = init_area-Inits fuel e (ground arith) is in
          (
            a ∷ areas,
            rw (t, got, run),
            Ready-cons e es a areas (ground (arith, t)) (ground (arith, t)) b i r,
          )
      | inr f ↦ (areas, rw f run, Ready-skip e es areas (not_taken e f) r)
    ]
  where
    not_taken :
        (e : MemmapEntry)
        → (e.usable && leb 0x2000 e.length) ≡ false
        → (e.usable ≡ false) ⊎ (e.length < 0x2000)
    not_taken e f = elim (Bool-cases e.usable) [
      | inr n ↦ inl n
      | inl y ↦ inr (ground (arith, y, f))
    ]

-- Of a memory map of at most 0x100 entries that share no memory, hold a million pages at most each, and are not of the
-- sizes for which `calc_header_pages` does not return, `bitmap_allocator_init` makes a well-formed allocator. It has an
-- area for each entry that is usable and has two pages at least, and no other one; the area has all pages of the entry but
-- those that its header needs; and no page is in use.
pub bitmap_allocator_init-Ready :
    (fuel : ℕ) (es : List MemmapEntry)
    → length es ≤ 0x100
    → IsMemmap es
    → (areas : BitmapAllocator) × (bitmap_allocator_init (suc (suc (suc fuel))) es ≡ some areas)
      × Ready es areas
unfolding bitmap_allocator_init
bitmap_allocator_init-Ready fuel es few is =
    let (areas, run, r) = init_areas-Ready fuel es is in
    let all = Covers-length r.covers in
    let room : ltb 0x100 (length areas) ≡ false = ground (arith, few, all) in
    (areas, rw (run, room) refl, r)
