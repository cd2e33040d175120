-- ===== src/Paging/Path.antt =====
-- The tables on the way to an address, and what a new entry keeps.
use bayos_kernel.Paging.{Tables, is_present, is_huge, pte_addr, pt_index, entry_of, set_word}
use bayos_kernel.Paging.Frames.{is_free}
use bayos_kernel.Memory.{BitmapAllocator}
use bayos_kernel.Common.{
  ℕ, zero, suc, ◌+◌, ◌*◌, ◌/◌, ◌%◌, ◌^◌, ◌≤◌, ◌<◌, ◌≡◌, ◌≢◌, refl, ap, ◌∙◌, ◌⊎◌, true, false, arith,
}

-- A table is page aligned, and its page is not one that can be allocated.
pub record IsTable (areas : BitmapAllocator) (table : ℕ) : Type 0 where
  pub aligned : table % 0x1000 ≡ 0
  pub used : is_free areas table ≡ false

-- From `table` on, the entries for `va` that are there lead to tables, and to no huge page.
unfoldable pub IsPath : (level table va : ℕ) → Tables → Type 0
IsPath zero table va s = IsTable s.areas table
IsPath (suc level) table va s =
    IsTable s.areas table
    × (is_present (s.words (entry_of table va (suc level))) ≡ true
        → (is_huge (s.words (entry_of table va (suc level))) ≡ false)
          × (s.words (entry_of table va (suc level)) < 2 ^ 52)
          × IsPath level (s.words (entry_of table va (suc level)) / 0x1000 * 0x1000) va s)

-- No entry of a table that was there has changed, and no page in use has become free.
pub record Extends (s s' : Tables) : Type 0 where
  pub kept :
      (table a : ℕ)
      → IsTable s.areas table
      → table ≤ a
      → a < table + 0x1000
      → is_present (s.words a) ≡ true
      → s'.words a ≡ s.words a
  pub used : (q : ℕ) → is_free s.areas q ≡ false → is_free s'.areas q ≡ false

pub Extends-refl : (s : Tables) → Extends s s
Extends-refl s = record { kept = λ table a is lo hi p. refl; used = λ q h. h }

pub Extends-trans : {s t u : Tables} → Extends s t → Extends t u → Extends s u
Extends-trans e f = record {
  kept = λ table a is lo hi p.
      let same = e.kept table a is lo hi p in
      let later : IsTable _ table = record { aligned = is.aligned; used = e.used table is.used } in
      f.kept table a later lo hi (ap is_present same ∙ p) ∙ same;
  used = λ q h. f.used q (e.used q h);
}

pub entry_of-within :
    (table va level : ℕ)
    → (table ≤ entry_of table va level) × (entry_of table va level + 8 ≤ table + 0x1000)
unfolding entry_of pt_index
entry_of-within table va level = (omega arith, omega arith)

-- The entry for a frame with the flags of a present page.
pub entry_word :
    (frame flags : ℕ)
    → frame % 0x1000 ≡ 0
    → frame + 0x1000 ≤ 2 ^ 52
    → flags % 2 ≡ 1
    → flags < 128
    → (is_present (frame + flags) ≡ true)
      × (is_huge (frame + flags) ≡ false)
      × (frame + flags < 2 ^ 52)
      × ((frame + flags) / 0x1000 * 0x1000 ≡ frame)
unfolding is_present is_huge
entry_word frame flags al top odd small =
    let present : (frame + flags) % 2 ≡ 1 = omega arith in
    let huge : (frame + flags) / 128 % 2 ≡ 0 = omega arith in
    (ground (arith, present), ground (arith, huge), omega arith, omega arith)

pub pte_addr-small : (word : ℕ) → word < 2 ^ 52 → pte_addr word ≡ word / 0x1000 * 0x1000
unfolding pte_addr
pte_addr-small word h = omega arith

-- A new entry in a word that was not present, with the frame behind it cleared or not.
pub written-Extends :
    {areas' : BitmapAllocator} {words : ℕ → ℕ} (entry word frame : ℕ) (s : Tables)
    → is_present (s.words entry) ≡ false
    → frame % 0x1000 ≡ 0
    → is_free s.areas frame ≡ true
    → ((a : ℕ) → (a < frame) ⊎ (frame + 0x1000 ≤ a) → words a ≡ s.words a)
    → ((q : ℕ) → is_free s.areas q ≡ false → is_free areas' q ≡ false)
    → Extends s (record { areas = areas'; words = set_word words entry word })
unfolding set_word
written-Extends {words} entry word frame s absent al free same used = record {
  kept = λ table a is lo hi p.
      let other : a ≢ entry =
        λ e. absurd (ground (arith, p, absent, ap (λ b. is_present (s.words b)) e)) in
      let apart : table ≢ frame =
        λ e. absurd (ground (arith, is.used, free, ap (λ b. is_free s.areas b) e)) in
      let outside : (a < frame) ⊎ (frame + 0x1000 ≤ a) =
        ground (arith, apart, al, is.aligned, lo, hi) in
      let value = same a outside in ground (arith, other, value);
  used = used;
}
