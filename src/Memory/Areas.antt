-- ===== src/Memory/Areas.antt =====
-- One area: what `allocate_page` and `free_page` do to it.
use bayos_kernel.Common.{
  ℕ, zero, suc, ◌+◌, ◌-◌, ◌*◌, ◌/◌, ◌≤◌, ◌<◌, ◌≡◌, refl, sym, ap, ◌∙◌, inl, inr, Bool, true, false,
  not, ◌&&◌, ◌||◌, Option, none, some, List, [], ◌∷◌, arith, ◌==◌, leb, ltb, ==_iff, Bool-cases,
  length, set, u64_mod, add64,
}
use bayos_kernel.Memory.{Area, BitmapAllocator, page, allocate_in, find_unused_page, clear_page}
use bayos_kernel.Memory.PageBits.{
  page_bit, mark_page, IsBytes, page_bit-mark_page, page_bit-clear_page, mark_page-IsBytes,
  clear_page-IsBytes, clear_page-mark_page, set_count, set_count-mark, set_count-full,
}
use bayos_kernel.Memory.Find.{Found, find_unused_page-Found}

-- An area has a page, and no more than `find_unused_page` takes; its bitmap has a bit for
-- each page; `used` counts the bits that are set.
pub record IsArea (a : Area) : Type 0 where
  pub some_page : 1 ≤ a.pages_count
  pub small : a.pages_count ≤ 1_000_000
  pub below : a.first_page + a.pages_count * 0x1000 < u64_mod
  pub room : a.pages_count ≤ 8 * length a.bitmap
  pub bytes : IsBytes a.bitmap
  pub counted : a.used ≡ set_count a.pages_count (page_bit a.bitmap)

-- `q` lies in the page that begins at `p`
abbrev pub covers : ℕ → ℕ → Bool
covers p q = leb p q && ltb q (p + 0x1000)

abbrev pub in_area : Area → ℕ → Bool
in_area a q = leb a.first_page q && ltb q (a.first_page + a.pages_count * 0x1000)

abbrev pub area_used : Area → ℕ → Bool
area_used a q = page_bit a.bitmap ((q - a.first_page) / 0x1000)

abbrev pub take_page : Area → ℕ → Area
take_page a k = record a { used = a.used + 1; bitmap = mark_page a.bitmap k }

abbrev pub drop_page : Area → ℕ → Area
drop_page a k = record a { used = a.used - 1; bitmap = clear_page a.bitmap k }

length-set : (xs : List ℕ) (i v : ℕ) → length (set xs i v) ≡ length xs
length-set [] i v = refl
length-set (x ∷ xs) zero v = refl
length-set (x ∷ xs) (suc i) v = ap suc (length-set xs i v)

module _ {a : Area} (is : IsArea a) where
  -- An area that is not full has a free page.
  not_none : a.used < a.pages_count → Found 0 a.pages_count a.bitmap none → ⊥
  not_none free f = omega (
    arith,
    is.counted,
    set_count-full a.pages_count (page_bit a.bitmap) (λ l h. f l (omega arith)),
  )

  allocate-Found :
      (areas : BitmapAllocator) (r : Option (ℕ × List ℕ))
      → find_unused_page a.pages_count a.bitmap ≡ r
      → a.used < a.pages_count
      → Found 0 a.pages_count a.bitmap r
      → (k : ℕ) × (allocate_in a areas ≡ page (a.first_page + k * 0x1000) (take_page a k ∷ areas))
        × (k < a.pages_count)
        × (page_bit a.bitmap k ≡ false)
  unfolding allocate_in
  allocate-Found areas none e free f = absurd (not_none free f)
  allocate-Found areas (some (index, bitmap)) e free (k, f) =
      let guard : (a.pages_count == 0 || ltb 1_000_000 a.pages_count) ≡ false =
        ground (arith, is.some_page, is.small) in
      let inside : leb a.pages_count index ≡ false = ground (arith, f.index_lem, f.within) in
      let address : add64 a.first_page (index * 0x1000) ≡ a.first_page + k * 0x1000 =
        omega (arith, f.index_lem, f.within, is.below) in
      let more : add64 a.used 1 ≡ a.used + 1 = omega (arith, is.small) in
      (k, rw (guard, e, inside, address, more, f.marked), omega (arith, f.within), f.clear)

  -- It is allocated, and the processor does not halt.
  pub allocate_in_lem :
      (areas : BitmapAllocator)
      → a.used < a.pages_count
      → (k : ℕ) × (allocate_in a areas ≡ page (a.first_page + k * 0x1000) (take_page a k ∷ areas))
        × (k < a.pages_count)
        × (page_bit a.bitmap k ≡ false)
  allocate_in_lem areas free =
      allocate-Found areas _ refl free
        (find_unused_page-Found a.pages_count a.bitmap is.small is.room)

  module _ (k : ℕ) (within : k < a.pages_count) where
    at_page :
        (q : ℕ)
        → in_area a q ≡ true
        → ((k == (q - a.first_page) / 0x1000) ≡ covers (a.first_page + k * 0x1000) q)
    at_page q h = ground arith

    pub take_page-IsArea : page_bit a.bitmap k ≡ false → IsArea (take_page a k)
    take_page-IsArea free = record {
      some_page = is.some_page;
      small = is.small;
      below = is.below;
      room = rw (length-set a.bitmap (k / 8)) is.room;
      bytes = mark_page-IsBytes a.bitmap k is.bytes (omega (arith, is.room));
      counted =
          ap suc1 is.counted
          ∙ sym (
              set_count-mark a.pages_count k (page_bit a.bitmap) _ within free
                (page_bit-mark_page a.bitmap k is.bytes (omega (arith, is.room))));
    }
      where
        suc1 : ℕ → ℕ
        suc1 n = n + 1

    pub area_used-take_page :
        (q : ℕ)
        → in_area a q ≡ true
        → area_used (take_page a k) q ≡ (covers (a.first_page + k * 0x1000) q || area_used a q)
    area_used-take_page q h =
        page_bit-mark_page a.bitmap k is.bytes (omega (arith, is.room))
          ((q - a.first_page) / 0x1000)
        ∙ ap (λ c. c || area_used a q) (at_page q h)

    pub drop_page-take_page : page_bit a.bitmap k ≡ false → drop_page (take_page a k) k ≡ a
    drop_page-take_page free =
        ground (arith, clear_page-mark_page a.bitmap k is.bytes (omega (arith, is.room)) free)

    suc_pred : (n : ℕ) (m : ℕ) → n ≡ m + 1 → n - 1 ≡ m
    suc_pred n m e = omega arith

    counted_drop :
        page_bit a.bitmap k ≡ true
        → a.used ≡ set_count a.pages_count (page_bit (clear_page a.bitmap k)) + 1
    counted_drop on =
        is.counted
        ∙ set_count-mark a.pages_count k (page_bit (clear_page a.bitmap k)) (page_bit a.bitmap)
            within (ground (arith, cleared k))
            (λ l. elim (Bool-cases (k == l)) [
              | inl e ↦ rw (← ((==_iff k l).0 e)) (ground (arith, on))
              | inr e ↦ ground (arith, cleared l)
            ])
      where
        cleared :
            (l : ℕ) → page_bit (clear_page a.bitmap k) l ≡ (not (k == l) && page_bit a.bitmap l)
        cleared = page_bit-clear_page a.bitmap k is.bytes (omega (arith, is.room))

    pub used_pos : page_bit a.bitmap k ≡ true → 1 ≤ a.used
    used_pos on = omega (arith, counted_drop on)

    pub drop_page-IsArea : page_bit a.bitmap k ≡ true → IsArea (drop_page a k)
    unfolding clear_page
    drop_page-IsArea on = record {
      some_page = is.some_page;
      small = is.small;
      below = is.below;
      room = rw (length-set a.bitmap (k / 8)) is.room;
      bytes = clear_page-IsBytes a.bitmap k is.bytes (omega (arith, is.room));
      counted = suc_pred a.used _ (counted_drop on);
    }

    pub area_used-drop_page :
        (q : ℕ)
        → in_area a q ≡ true
        → area_used (drop_page a k) q
          ≡ (not (covers (a.first_page + k * 0x1000) q) && area_used a q)
    area_used-drop_page q h =
        page_bit-clear_page a.bitmap k is.bytes (omega (arith, is.room))
          ((q - a.first_page) / 0x1000)
        ∙ ap (λ c. not c && area_used a q) (at_page q h)
