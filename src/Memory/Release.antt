-- ===== src/Memory/Release.antt =====
-- `free_page` of a page in use.
use bayos_kernel.Memory.Areas.{drop_page-IsArea}
use bayos_kernel.Memory.Areas.{area_used-drop_page}
use bayos_kernel.Memory.Areas.{used_pos}
use bayos_kernel.Common.{
  ℕ, ◌+◌, ◌*◌, ◌<◌, ◌≡◌, inl, inr, true, false, not, ◌&&◌, [], ◌∷◌, arith, Bool-cases,
}
use bayos_kernel.Memory.{Area, BitmapAllocator, free_page}
use bayos_kernel.Memory.PageBits.{page_bit, set_count-le}
use bayos_kernel.Memory.Areas.{IsArea, covers, in_area}
use bayos_kernel.Memory.Pages.{
  Beside, IsAllocator, is_used, IsPage, outside, free_page-skip, free_page-here, in_first,
  index_first, covers_self,
}

-- What `free_page` of `p` leaves.
pub record Freed (areas : BitmapAllocator) (p : ℕ) (areas' : BitmapAllocator) : Type 0 where
  pub used : (q : ℕ) → is_used areas' q ≡ (not (covers p q) && is_used areas q)
  pub valid : IsAllocator areas'
  pub beside : (b : Area) → Beside b areas → Beside b areas'

module _ (a : Area) (areas : BitmapAllocator) (is : IsArea a) (b : Beside a areas) where
  Freed-here :
      (k : ℕ)
      → k < a.pages_count
      → IsAllocator areas
      → is_used (a ∷ areas) (a.first_page + k * 0x1000) ≡ true
      → Freed
          (a ∷ areas)
          (a.first_page + k * 0x1000)
          (free_page (a ∷ areas) (a.first_page + k * 0x1000))
  Freed-here k within v u =
      rw
        (free_page-here a areas is b k within a.used a.bitmap (used_pos is k within on)
          (omega (arith, is.small, is.counted, set_count-le a.pages_count (page_bit a.bitmap))))
        (record {
          used = λ q. elim (Bool-cases (in_area a q)) [
            | inl i ↦ rw i (area_used-drop_page is k within q i)
            | inr o ↦ ground (arith, in_first a areas is b k within q)
          ];
          valid = (drop_page-IsArea is k within on, b, v);
          beside = λ d bd. bd;
        })
    where
      on : page_bit a.bitmap k ≡ true
      on =
          rw
            (
              in_first a areas is b k within (a.first_page + k * 0x1000)
                  (covers_self a areas is b (a.first_page + k * 0x1000)),
              index_first a areas is b k within,
            )
            at u

  Freed-behind :
      (p : ℕ)
      → IsPage areas p
      → Freed areas p (free_page areas p)
      → Freed (a ∷ areas) p (free_page (a ∷ areas) p)
  Freed-behind p there g = rw (free_page-skip a areas p is out) (record {
    used = λ q. elim (Bool-cases (covers p q)) [
      | inl c ↦ rw (outside a areas p q b there c) (g.used q)
      | inr c ↦ ground (arith, g.used q)
    ];
    valid = (is, g.beside a b, g.valid);
    beside = λ d bd. (bd.0, g.beside d bd.1);
  })
    where
      out : in_area a p ≡ false
      out = outside a areas p p b there (covers_self a areas is b p)

-- `free_page` of a page in use takes it, and no other page, out of use, and keeps the allocator
-- well formed.
pub free_page-Freed :
    (areas : BitmapAllocator) (p : ℕ)
    → IsAllocator areas
    → IsPage areas p
    → is_used areas p ≡ true
    → Freed areas p (free_page areas p)
free_page-Freed [] p v is u = absurd is
free_page-Freed (a ∷ areas) p (is, b, v) (inl (k, within, e)) u =
    rw e (Freed-here a areas is b k within v (rw e at u))
free_page-Freed (a ∷ areas) p (is, b, v) (inr there) u = Freed-behind a areas is b p there (
    free_page-Freed areas p v there
      (rw (outside a areas p p b there (covers_self a areas is b p)) at u))
