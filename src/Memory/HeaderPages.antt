-- ===== src/Memory/HeaderPages.antt =====
-- How many pages the header of an area takes: `calc_header_pages`.
use bayos_kernel.Common.{
  ℕ, zero, suc, ◌+◌, ◌-◌, ◌*◌, ◌/◌, ◌%◌, ◌≤◌, ◌<◌, ◌≡◌, ◌≢◌, ◌⊎◌, inl, inr, refl, none, some, arith,
  ◌==◌, Bool-cases, ◌∙◌, ==_iff, ==_iff,
}
use bayos_kernel.Memory.{next_header_pages, header_loop, calc_header_pages}

abbrev pub max_pages : ℕ
max_pages = 0x2000_0000

-- the bytes of the header of an area of `p` pages, `h` of which hold the header
abbrev pub header_bytes : ℕ → ℕ → ℕ
header_bytes p h = 24 + (p - h + 7) / 8

next_lem :
    (p h : ℕ) → h ≤ p → p ≤ max_pages → next_header_pages p h ≡ (header_bytes p h + 0xfff) / 0x1000
next_lem p h le small = ground arith

loop-stop : (f p h : ℕ) → next_header_pages p h ≡ h → header_loop (suc f) p h ≡ some h
unfolding header_loop
loop-stop f p h e = rw e (ground arith)

loop-next :
    (f p h n : ℕ) → next_header_pages p h ≡ n → n ≢ h → header_loop (suc f) p h ≡ header_loop f p n
unfolding header_loop
loop-next f p h n e ne = rw e (ground arith)

-- The bytes of the header fill its pages, all but a part of the last.
pub record IsHeader (p h : ℕ) : Type 0 where
  pub pos : 1 ≤ h
  pub below : h < p
  pub room : header_bytes p h ≤ h * 0x1000
  pub least : h * 0x1000 < header_bytes p h + 0x1000

-- The number of pages that the header of an area takes is a fixed point.
abbrev round_up : ℕ → ℕ → ℕ
round_up p h = (header_bytes p h + 0xfff) / 0x1000

module _ (p : ℕ) (two : 2 ≤ p) (small : p ≤ max_pages) where
  abbrev first : ℕ
  first = round_up p 1

  first-le : first ≤ p
  first-le = omega arith

  next_first : next_header_pages p 1 ≡ first
  next_first = next_lem p 1 (omega arith) small

  -- From the first guess on, the loop goes between two values.
  next_second : (next_header_pages p first ≡ first) ⊎ (next_header_pages p first ≡ first - 1)
  next_second = rw (next_lem p first first-le small) (omega arith)

  next_third :
      next_header_pages p first ≡ first - 1
      → p % 32769 ≢ 32578
      → next_header_pages p (first - 1) ≡ first - 1
  next_third e ne =
      rw (next_lem p (first - 1) (omega arith) small)
        (ground (arith, next_lem p first first-le small))

  fixed-IsHeader : (h : ℕ) → h ≤ first → next_header_pages p h ≡ h → IsHeader p h
  fixed-IsHeader h le e = ground (arith, next_lem p h (omega arith) small)

  -- from a guess that is not 1, in two more rounds
  settle :
      (f : ℕ)
      → p % 32769 ≢ 32578
      → (h : ℕ) × (header_loop (suc (suc f)) p first ≡ some h) × IsHeader p h
  settle f ne = elim next_second [
    | inl e ↦ (first, loop-stop (suc f) p first e, fixed-IsHeader first (omega arith) e)
    | inr e ↦ (
      first - 1,
      loop-next (suc f) p first (first - 1) e (omega arith)
          ∙ loop-stop f p (first - 1) (next_third e ne),
      fixed-IsHeader (first - 1) (omega arith) (next_third e ne),
    )
  ]

  calc-IsHeader :
      (f : ℕ)
      → p % 32769 ≢ 32578
      → (h : ℕ) × (header_loop (suc (suc (suc f))) p 1 ≡ some h) × IsHeader p h
  calc-IsHeader f ne = elim (Bool-cases (first == 1)) [
    | inl e ↦
        let one : first ≡ 1 = (==_iff first 1).0 e in
        (
          1,
          loop-stop (suc (suc f)) p 1 (next_first ∙ one),
          fixed-IsHeader 1 (omega arith) (next_first ∙ one),
        )
    | inr e ↦
        let (h, run, is) = settle f ne in
        (h, loop-next (suc (suc f)) p 1 first next_first (ground arith) ∙ run, is)
  ]

-- For an area of 2 to 2 ^ 29 pages (2 TiB), 3 rounds of `calc_header_pages` are enough, unless the number of pages is 32578 more
-- than a multiple of 32769. The pages that it returns hold the record of the area and a bit
-- for each page that they leave; one page fewer would not; and they leave a page.
pub calc_header_pages_lem :
    (fuel p : ℕ)
    → 2 ≤ p
    → p ≤ max_pages
    → p % 32769 ≢ 32578
    → (h : ℕ) × (calc_header_pages (suc (suc (suc fuel))) p ≡ some h) × IsHeader p h
unfolding calc_header_pages
calc_header_pages_lem fuel p two small ne = calc-IsHeader p two small fuel ne

-- At the other numbers the loop goes to and fro between two guesses.
module _ (k : ℕ) (pos : 1 ≤ k) (small : 32769 * k ≤ max_pages) where
  swings :
      (fuel : ℕ)
      → (header_loop fuel (32769 * k - 191) k ≡ none)
        × (header_loop fuel (32769 * k - 191) (suc k) ≡ none)
  swings zero = unfold header_loop in (refl, refl)
  swings (suc f) =
      let p = 32769 * k - 191 in
      (
        loop-next f p k (suc k) (next_lem p k (omega arith) (omega arith) ∙ omega arith)
              (omega arith)
            ∙ (swings f).1,
        loop-next f p (suc k) k (next_lem p (suc k) (omega arith) (omega arith) ∙ omega arith)
              (omega arith)
            ∙ (swings f).0,
      )

-- For k from 1 on with 32769 k at most 2 ^ 29, `calc_header_pages` never returns for an area of 32769 k - 191 pages; the
-- first of these is of 32578 pages (127 MiB).
pub calc_header_pages_diverges :
    (k fuel : ℕ) → 1 ≤ k → 32769 * k ≤ max_pages → calc_header_pages fuel (32769 * k - 191) ≡ none
unfolding calc_header_pages
calc_header_pages_diverges k zero pos small = unfold header_loop in refl
calc_header_pages_diverges k (suc f) pos small =
    loop-next f (32769 * k - 191) 1 (suc k)
      (next_lem (32769 * k - 191) 1 (omega arith) (omega arith) ∙ omega arith) (omega arith)
    ∙ (swings k pos small f).1
