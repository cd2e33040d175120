-- ===== src/Memory/PageBits.antt =====
-- A bitmap as a test of page numbers.
use bayos_kernel.Common.{
  ℕ, zero, suc, ◌+◌, ◌*◌, ◌/◌, ◌%◌, ◌≤◌, ◌<◌, ◌≡◌, refl, ap, inl, inr, Bool, true, false, not, ◌&&◌,
  ◌||◌, List, [], ◌∷◌, arith, ◌==◌, if◌then◌else◌, Bool-cases, length, set, get_or,
}
use bayos_kernel.Memory.Bits.{
  bit_at, set_bit, clear_bit, bit_at-set_bit, bit_at-clear_bit, byte_bounds, clear_bit-set_bit,
}
use bayos_kernel.Memory.{clear_page}

abbrev pub page_bit : List ℕ → ℕ → Bool
page_bit bytes k = bit_at (get_or bytes (k / 8) 0) (k % 8)

abbrev pub mark_page : List ℕ → ℕ → List ℕ
mark_page bytes k = set bytes (k / 8) (set_bit (get_or bytes (k / 8) 0) (k % 8))

abbrev pub IsBytes : List ℕ → Type 0
IsBytes [] = Unit
IsBytes (b ∷ bs) = (b < 256) × IsBytes bs

module _ (b : ℕ) (bs : List ℕ) where
  pub page_bit-head : (k : ℕ) → k < 8 → page_bit (b ∷ bs) k ≡ bit_at b k
  page_bit-head k h =
      let q : k / 8 ≡ 0 = omega arith in let r : k % 8 ≡ k = omega arith in rw (q, r)

  pub page_bit-tail : (k : ℕ) → page_bit (b ∷ bs) (8 + k) ≡ page_bit bs k
  page_bit-tail k =
      let q : (8 + k) / 8 ≡ suc (k / 8) = omega arith in
      let r : (8 + k) % 8 ≡ k % 8 = omega arith in rw (q, r)

  pub mark_page-head : (k : ℕ) → k < 8 → mark_page (b ∷ bs) k ≡ set_bit b k ∷ bs
  mark_page-head k h =
      let q : k / 8 ≡ 0 = omega arith in let r : k % 8 ≡ k = omega arith in rw (q, r)

  pub mark_page-tail : (k : ℕ) → mark_page (b ∷ bs) (8 + k) ≡ b ∷ mark_page bs k
  mark_page-tail k =
      let q : (8 + k) / 8 ≡ suc (k / 8) = omega arith in
      let r : (8 + k) % 8 ≡ k % 8 = omega arith in rw (q, r)

get_or-lt : (bytes : List ℕ) (i : ℕ) → IsBytes bytes → get_or bytes i 0 < 256
get_or-lt [] i h = omega arith
get_or-lt (b ∷ bs) zero h = h.0
get_or-lt (b ∷ bs) (suc i) h = get_or-lt bs i h.1

set-IsBytes : (bytes : List ℕ) (i v : ℕ) → v < 256 → IsBytes bytes → IsBytes (set bytes i v)
set-IsBytes [] i v hv h = tt
set-IsBytes (b ∷ bs) zero v hv h = (hv, h.1)
set-IsBytes (b ∷ bs) (suc i) v hv h = (h.0, set-IsBytes bs i v hv h.1)

get_or-set :
    (bytes : List ℕ) (i j v : ℕ)
    → i < length bytes
    → get_or (set bytes i v) j 0 ≡ (if i == j then v else get_or bytes j 0)
get_or-set [] i j v h = absurd (omega arith)
get_or-set (b ∷ bs) zero zero v h = refl
get_or-set (b ∷ bs) zero (suc j) v h = ground arith
get_or-set (b ∷ bs) (suc i) zero v h = ground arith
get_or-set (b ∷ bs) (suc i) (suc j) v h = ground (arith, get_or-set bs i j v)

set-set_self : (bytes : List ℕ) (i v : ℕ) → set (set bytes i v) i (get_or bytes i 0) ≡ bytes
set-set_self [] i v = refl
set-set_self (b ∷ bs) zero v = refl
set-set_self (b ∷ bs) (suc i) v = ap (λ r. b ∷ r) (set-set_self bs i v)

module _ (bytes : List ℕ) (k : ℕ) (is : IsBytes bytes) (room : k < 8 * length bytes) where
  byte : ℕ
  byte = get_or bytes (k / 8) 0

  -- Marking a page changes the bit of that page only, and so does clearing one.
  pub page_bit-mark_page : (l : ℕ) → page_bit (mark_page bytes k) l ≡ (k == l || page_bit bytes l)
  page_bit-mark_page l = ground (
    arith,
    get_or-set bytes (k / 8) (l / 8) (set_bit (get_or bytes (k / 8) 0) (k % 8)),
    bit_at-set_bit (get_or bytes (k / 8) 0) (k % 8) (l % 8) (get_or-lt bytes (k / 8) is),
  )

  pub page_bit-clear_page :
      (l : ℕ) → page_bit (clear_page bytes k) l ≡ (not (k == l) && page_bit bytes l)
  unfolding clear_page
  page_bit-clear_page l = ground (
    arith,
    get_or-set bytes (k / 8) (l / 8) (clear_bit (get_or bytes (k / 8) 0) (k % 8)),
    bit_at-clear_bit (get_or bytes (k / 8) 0) (k % 8) (l % 8) (get_or-lt bytes (k / 8) is),
  )

  pub mark_page-IsBytes : IsBytes (mark_page bytes k)
  mark_page-IsBytes =
      set-IsBytes bytes (k / 8) _
        (byte_bounds (get_or bytes (k / 8) 0) (k % 8) (get_or-lt bytes (k / 8) is) (omega arith)).0
        is

  pub clear_page-IsBytes : IsBytes (clear_page bytes k)
  unfolding clear_page
  clear_page-IsBytes =
      set-IsBytes bytes (k / 8) _
        (byte_bounds (get_or bytes (k / 8) 0) (k % 8) (get_or-lt bytes (k / 8) is) (omega arith)).1
        is

  pub clear_page-mark_page : page_bit bytes k ≡ false → clear_page (mark_page bytes k) k ≡ bytes
  unfolding clear_page
  clear_page-mark_page free =
      let b = get_or bytes (k / 8) 0 in
      let held : get_or (set bytes (k / 8) (set_bit b (k % 8))) (k / 8) 0 ≡ set_bit b (k % 8) =
        ground (arith, get_or-set bytes (k / 8) (k / 8) (set_bit b (k % 8))) in
      rw (held, clear_bit-set_bit b (k % 8) (get_or-lt bytes (k / 8) is) (omega arith) free)
        (set-set_self bytes (k / 8) (set_bit b (k % 8)))

-- how many of the first `n` pages are marked
abbrev pub set_count : ℕ → (ℕ → Bool) → ℕ
set_count zero f = 0
set_count (suc n) f = set_count n f + (if f n then 1 else 0)

pub set_count-le : (n : ℕ) (f : ℕ → Bool) → set_count n f ≤ n
set_count-le zero f = omega arith
set_count-le (suc n) f = ground (arith, set_count-le n f)

set_count_same :
    (n : ℕ) (f g : ℕ → Bool) → ((l : ℕ) → l < n → g l ≡ f l) → set_count n g ≡ set_count n f
set_count_same zero f g same = refl
set_count_same (suc n) f g same =
    ground (arith, same n, set_count_same n f g (λ l h. same l (omega arith)))

-- Marking a page that is free adds one.
pub set_count-mark :
    (n k : ℕ) (f g : ℕ → Bool)
    → k < n
    → f k ≡ false
    → ((l : ℕ) → g l ≡ (k == l || f l))
    → set_count n g ≡ set_count n f + 1
set_count-mark zero k f g lt free mark = absurd (omega arith)
set_count-mark (suc n) k f g lt free mark = elim (Bool-cases (k == n)) [
  | inl e ↦ ground (arith, mark n, set_count_same n f g (λ l h. ground (arith, mark l)))
  | inr e ↦ ground (arith, mark n, set_count-mark n k f g (ground arith) free mark)
]

pub set_count-full : (n : ℕ) (f : ℕ → Bool) → ((l : ℕ) → l < n → f l ≡ true) → set_count n f ≡ n
set_count-full zero f all = refl
set_count-full (suc n) f all =
    ground (arith, all n, set_count-full n f (λ l h. all l (omega arith)))
