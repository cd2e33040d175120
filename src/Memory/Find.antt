-- ===== src/Memory/Find.antt =====
-- `find_unused_page` finds the first page whose bit is clear, and sets it.
use mathlib.Core.Option
use bayos_kernel.Common.{
  ℕ, zero, suc, ◌+◌, ◌-◌, ◌*◌, ◌≤◌, ◌<◌, ◌≡◌, refl, sym, ◌∙◌, inl, inr, true, false, Option, none,
  some, List, [], ◌∷◌, arith, ◌==◌, leb, ==_iff, Bool-cases, length,
}
use bayos_kernel.Memory.Bits.{bit_at, set_bit}
use bayos_kernel.Memory.{BitScan, hit, past, full, scan_bits, scan_bytes, find_unused_page}
use bayos_kernel.Memory.PageBits.{
  page_bit, mark_page, page_bit-head, page_bit-tail, mark_page-head, mark_page-tail,
}

-- What the scan of a byte from bit `j` on says.
abbrev Scanned : (j page count byte : ℕ) → BitScan → Type 0
Scanned j page count byte (hit k) =
    (j ≤ k)
    × (k < 8)
    × (page + k < count)
    × (bit_at byte k ≡ false)
    × ((l : ℕ) → j ≤ l → l < k → bit_at byte l ≡ true)
Scanned j page count byte past =
    (count < page + 8) × ((l : ℕ) → j ≤ l → page + l < count → bit_at byte l ≡ true)
Scanned j page count byte full = (l : ℕ) → j ≤ l → l < 8 → bit_at byte l ≡ true

Scanned-step :
    (j page count byte : ℕ) (s : BitScan)
    → bit_at byte j ≡ true
    → Scanned (j + 1) page count byte s
    → Scanned j page count byte s
Scanned-step j page count byte (hit k) e h = (
  omega arith,
  h.1,
  h.2,
  h.3,
  λ l a b. elim (Bool-cases (l == j)) [
    | inl q ↦ rw ((==_iff l j).0 q) e
    | inr q ↦ h.4 l (ground arith) b
  ],
)
Scanned-step j page count byte past e h = (
  h.0,
  λ l a b. elim (Bool-cases (l == j)) [
    | inl q ↦ rw ((==_iff l j).0 q) e
    | inr q ↦ h.1 l (ground arith) b
  ],
)
Scanned-step j page count byte full e h = λ l a b. elim (Bool-cases (l == j)) [
  | inl q ↦ rw ((==_iff l j).0 q) e
  | inr q ↦ h l (ground arith) b
]

scan_bits-Scanned :
    (rounds j page count byte : ℕ)
    → rounds + j ≡ 8
    → Scanned j page count byte (scan_bits rounds j page count byte)
unfolding scan_bits
scan_bits-Scanned zero j page count byte e = λ l a b. absurd (omega arith)
scan_bits-Scanned (suc r) j page count byte e = elim (Bool-cases (leb count (page + j))) [
  | inl out ↦ rw out (ground arith, λ l a b. absurd (ground arith))
  | inr within ↦ elim (Bool-cases (bit_at byte j)) [
    | inl on ↦
        rw (within, on)
          (Scanned-step j page count byte (scan_bits r (j + 1) page count byte) on
            (scan_bits-Scanned r (j + 1) page count byte (omega arith)))
    | inr off ↦
        rw (within, off)
          (omega arith, omega arith, ground arith, off, λ l a b. absurd (omega arith))
  ]
]

-- What the scan of the bytes says, page `page` being the first of them.
pub record Hit (page count : ℕ) (bytes : List ℕ) (index : ℕ) (bytes' : List ℕ) (k : ℕ)
    : Type 0 where
  pub index_lem : index ≡ page + k
  pub within : page + k < count
  pub room : k < 8 * length bytes
  pub clear : page_bit bytes k ≡ false
  pub first : (l : ℕ) → l < k → page_bit bytes l ≡ true
  pub marked : bytes' ≡ mark_page bytes k

abbrev pub Found : (page count : ℕ) → List ℕ → Option (ℕ × List ℕ) → Type 0
Found page count bytes none = (k : ℕ) → page + k < count → page_bit bytes k ≡ true
Found page count bytes (some (index, bytes')) = (k : ℕ) × Hit page count bytes index bytes' k

-- a page of the first byte, or of those behind it
page_bit-cases :
    (b : ℕ) (bs : List ℕ) (bound : ℕ)
    → ((l : ℕ) → l < 8 → l < bound → bit_at b l ≡ true)
    → ((l : ℕ) → 8 + l < bound → page_bit bs l ≡ true)
    → (l : ℕ) → l < bound
    → page_bit (b ∷ bs) l ≡ true
page_bit-cases b bs bound low high l h = elim (Bool-cases (leb 8 l)) [
  | inl e ↦
      let at : l ≡ 8 + (l - 8) = ground arith in
      rw (at, page_bit-tail b bs (l - 8)) (high (l - 8) (omega arith))
  | inr e ↦ rw (page_bit-head b bs l (ground arith)) (low l (ground arith) h)
]

Found-cons :
    (page count b : ℕ) (bs : List ℕ) (r : Option (ℕ × List ℕ))
    → ((l : ℕ) → 0 ≤ l → l < 8 → bit_at b l ≡ true)
    → Found (page + 8) count bs r
    → Found page count (b ∷ bs) (Option.map (λ r. (r.0, b ∷ r.1)) r)
Found-cons page count b bs none all f = λ k h.
    page_bit-cases b bs (suc k) (λ l a c. all l (omega arith) a) (λ l a. f l (omega arith)) k
      (omega arith)
Found-cons page count b bs (some (index, bs')) all (k, f) = (
  8 + k,
  record {
    index_lem = omega (arith, f.index_lem);
    within = omega (arith, f.within);
    room = omega (arith, f.room);
    clear = page_bit-tail b bs k ∙ f.clear;
    first =
        page_bit-cases b bs (8 + k) (λ l h h'. all l (omega arith) h)
          (λ l h. f.first l (omega arith));
    marked = rw f.marked (sym (mark_page-tail b bs k));
  },
)

Found-hit :
    (page count b j : ℕ) (bs : List ℕ)
    → Scanned 0 page count b (hit j)
    → Hit page count (b ∷ bs) (page + j) (set_bit b j ∷ bs) j
Found-hit page count b j bs s = record {
  index_lem = refl;
  within = s.2;
  room = omega arith;
  clear = page_bit-head b bs j s.1 ∙ s.3;
  first = page_bit-cases b bs j (λ l a c. s.4 l (omega arith) c) (λ l h. absurd (omega arith));
  marked = sym (mark_page-head b bs j s.1);
}

module _ (rounds page count b : ℕ) (bs : List ℕ) where
  Found-byte :
      (s : BitScan)
      → scan_bits 8 0 page count b ≡ s
      → Scanned 0 page count b s
      → Found (page + 8) count bs (scan_bytes rounds (page + 8) count bs)
      → Found page count (b ∷ bs) (scan_bytes (suc rounds) page count (b ∷ bs))
  unfolding scan_bytes
  Found-byte (hit j) e s rest = rw (e, scan_bytes) (j, Found-hit page count b j bs s)
  Found-byte past e s rest =
      rw (e, scan_bytes)
        (λ k h.
          page_bit-cases b bs (suc k) (λ l a c. s.1 l (omega arith) (omega arith))
            (λ l a. absurd (omega arith)) k (omega arith))
  Found-byte full e s rest =
      rw (e, scan_bytes) (Found-cons page count b bs (scan_bytes rounds (page + 8) count bs) s rest)

scan_bytes-Found :
    (rounds page count : ℕ) (bytes : List ℕ)
    → count ≤ page + 8 * rounds
    → count ≤ page + 8 * length bytes
    → Found page count bytes (scan_bytes rounds page count bytes)
scan_bytes-Found zero page count bytes h room = unfold scan_bytes in λ k lt. absurd (omega arith)
scan_bytes-Found (suc r) page count [] h room = unfold scan_bytes in λ k lt. absurd (omega arith)
scan_bytes-Found (suc r) page count (b ∷ bs) h room =
    Found-byte r page count b bs (scan_bits 8 0 page count b) refl
      (scan_bits-Scanned 8 0 page count b refl)
      (scan_bytes-Found r (page + 8) count bs (omega arith) (omega arith))

-- For a bitmap with a bit for each page, `find_unused_page` returns the index of the first page whose bit is clear, with the bitmap that has this bit
-- set. It returns -1 only if every bit is set.
pub find_unused_page-Found :
    (count : ℕ) (bytes : List ℕ)
    → count ≤ 1_000_000
    → count ≤ 8 * length bytes
    → Found 0 count bytes (find_unused_page count bytes)
unfolding find_unused_page
find_unused_page-Found count bytes small room =
    scan_bytes-Found _ 0 count bytes (omega arith) (omega arith)
