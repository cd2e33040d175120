-- ===== src/Paging/Spaces.antt =====
-- The page tables in use, and what `map_memory_page` of src/memory.c keeps of them.
use bayos_kernel.Paging.{Tables, is_present, is_huge, set_word, clear_frame}
use bayos_kernel.Paging.Frames.{is_free, Fresh}
use bayos_kernel.Paging.Path.{IsTable, entry_word}
use bayos_kernel.Paging.Entries.{with_table, with_page, with_table-at}
use bayos_kernel.Paging.Unmapping.{zero_absent}
use bayos_kernel.Common.{
  ℕ, suc, ◌+◌, ◌*◌, ◌/◌, ◌%◌, ◌^◌, ◌≤◌, ◌<◌, ◌≡◌, ◌≢◌, ◌⊎◌, inl, inr, refl, sym, ap, ◌∙◌, true,
  false, arith, ◌==◌, ==_iff, Bool-cases,
}

-- The tables of each level are in use, and one does not stand on two levels; the entries of the upper ones that are
-- there, and no huge pages, lead to tables of the level below.
pub record IsSpace (T : (level table : ℕ) → Type 0) (s : Tables) : Type 0 where
  pub tables : (l t : ℕ) → T l t → IsTable s.areas t
  pub only : (l l' t : ℕ) → T l t → T l' t → l ≡ l'
  pub down :
      (l t a : ℕ)
      → T (suc l) t
      → t ≤ a
      → a < t + 0x1000
      → is_present (s.words a) ≡ true
      → is_huge (s.words a) ≡ false
      → (s.words a < 2 ^ 52) × T l (s.words a / 0x1000 * 0x1000)

pub set_word-other : (words : ℕ → ℕ) (p word a : ℕ) → a ≢ p → set_word words p word a ≡ words a
unfolding set_word
set_word-other words p word a ne = ground (arith, ne)

pub given_apart : (s : Tables) (f : Fresh s.areas) (t : ℕ) → IsTable s.areas t → t ≢ f.frame
given_apart s f t h e = absurd (ground (arith, h.used, f.was_free, ap (λ b. is_free s.areas b) e))

pub given_outside :
    (s : Tables) (f : Fresh s.areas) (t a : ℕ)
    → IsTable s.areas t
    → t ≤ a
    → a < t + 0x1000
    → (a < f.frame) ⊎ (f.frame + 0x1000 ≤ a)
given_outside s f t a h lo hi =
    let ne = given_apart s f t h in ground (arith, ne, h.aligned, f.aligned, lo, hi)

pub with_table-other :
    (e flags : ℕ) (s : Tables) (f : Fresh s.areas) (a : ℕ)
    → a ≢ e
    → (a < f.frame) ⊎ (f.frame + 0x1000 ≤ a)
    → (with_table e flags s f).words a ≡ s.words a
unfolding with_table set_word clear_frame
with_table-other e flags s f a ne out = ground (arith, ne, out)

pub with_table-zero :
    (e flags : ℕ) (s : Tables) (f : Fresh s.areas) (a : ℕ)
    → a ≢ e
    → f.frame ≤ a
    → a < f.frame + 0x1000
    → (with_table e flags s f).words a ≡ 0
unfolding with_table set_word clear_frame
with_table-zero e flags s f a ne lo hi = ground (arith, ne, lo, hi)

module _ (T : (level table : ℕ) → Type 0) where
  -- The tables with a new one.
  unfoldable pub With : (level frame : ℕ) → (level table : ℕ) → Type 0
  With level frame l t = T l t ⊎ ((l ≡ level) × (t ≡ frame))

  pub same_page :
      (s : Tables) (t t' a : ℕ)
      → IsTable s.areas t
      → IsTable s.areas t'
      → t ≤ a
      → a < t + 0x1000
      → t' ≤ a
      → a < t' + 0x1000
      → t ≡ t'
  same_page s t t' a h h' lo hi lo' hi' = omega (arith, h.aligned, h'.aligned, lo, hi, lo', hi')

  pub page-IsSpace :
      (e table flags : ℕ) (s : Tables) (f : Fresh s.areas)
      → IsSpace T s
      → T 0 table
      → table ≤ e
      → e < table + 0x1000
      → IsSpace T (with_page e flags s f)
  unfolding with_page set_word
  page-IsSpace e table flags s f h is lo hi = record {
    tables = λ l t i.
        let b = h.tables l t i in record { aligned = b.aligned; used = f.still_used t b.used };
    only = h.only;
    down = λ l t a i lo' hi' p g.
        let other : a ≢ e = λ z.
          let same =
            same_page s t table a (h.tables (suc l) t i) (h.tables 0 table is) lo' hi'
              (omega (arith, z, lo)) (omega (arith, z, hi)) in
          let there : T 0 t = rw same is in
          let levels = h.only 0 (suc l) t there i in absurd (omega (arith, levels)) in
        let word = set_word-other s.words e (f.frame + flags) a other in
        let (low, next) =
          h.down l t a i lo' hi' (sym (ap is_present word) ∙ p) (sym (ap is_huge word) ∙ g) in
        (omega (arith, word, low), rw word next);
  }

  With-only :
      (l k l' t : ℕ) (s : Tables) (f : Fresh s.areas)
      → IsSpace T s
      → With l f.frame k t
      → With l f.frame l' t
      → k ≡ l'
  unfolding With
  With-only l k l' t s f h (inl a) (inl b) = h.only k l' t a b
  With-only l k l' t s f h (inr (a, e)) (inr (b, e')) = omega (arith, a, b)
  With-only l k l' t s f h (inl a) (inr (b, e)) = absurd (given_apart s f t (h.tables k t a) e)
  With-only l k l' t s f h (inr (b, e)) (inl a) = absurd (given_apart s f t (h.tables l' t a) e)

  -- The new table `f.frame`, of level `l`, stands behind the entry `e` of a table of level `suc l`.
  table-down :
      (e l table flags : ℕ) (s : Tables) (f : Fresh s.areas)
      → IsSpace T s
      → T (suc l) table
      → table ≤ e
      → e < table + 0x1000
      → flags % 2 ≡ 1
      → flags < 128
      → (k t a : ℕ) → With l f.frame (suc k) t
      → t ≤ a
      → a < t + 0x1000
      → (w : ℕ) → w ≡ (with_table e flags s f).words a
      → is_present w ≡ true
      → is_huge w ≡ false
      → (w < 2 ^ 52) × With l f.frame k (w / 0x1000 * 0x1000)
  unfolding With
  table-down e l table flags s f h is lo hi odd small k t a (inl i) lo' hi' w ew p g =
      elim (Bool-cases (a == e)) [
        | inl z ↦
            let ez = (==_iff a e).0 z in
            let same =
              same_page s t table a (h.tables (suc k) t i) (h.tables (suc l) table is) lo' hi'
                (omega (arith, ez, lo)) (omega (arith, ez, hi)) in
            let there : T (suc l) t = rw same is in
            let levels = h.only (suc l) (suc k) t there i in
            let (present, huge, low, next) = entry_word f.frame flags f.aligned f.small odd small in
            let word : w ≡ f.frame + flags =
              ew ∙ ap (with_table e flags s f).words ez ∙ with_table-at e flags s f in
            (
              omega (arith, word, low),
              inr (omega (arith, levels), ap (λ x. x / 0x1000 * 0x1000) word ∙ next),
            )
        | inr z ↦
            let ne : a ≢ e = ground (arith, z) in
            let b = h.tables (suc k) t i in
            let word : w ≡ s.words a =
              ew ∙ with_table-other e flags s f a ne (given_outside s f t a b lo' hi') in
            let (low, next) =
              h.down k t a i lo' hi' (sym (ap is_present word) ∙ p) (sym (ap is_huge word) ∙ g) in
            (omega (arith, word, low), inl (rw word next))
      ]
  table-down e l table flags s f h is lo hi odd small k t a (inr (lev, et)) lo' hi' w ew p g =
      let b = h.tables (suc l) table is in
      let ne : a ≢ e = λ z.
        given_apart s f table b (omega (arith, z, et, lo', hi', lo, hi, b.aligned, f.aligned)) in
      let word : w ≡ 0 =
        ew ∙ with_table-zero e flags s f a ne (omega (arith, et, lo')) (omega (arith, et, hi')) in
      absurd (ground (arith, zero_absent, ap is_present word, p))

  pub table-IsSpace :
      (e l table flags : ℕ) (s : Tables) (f : Fresh s.areas)
      → IsSpace T s
      → T (suc l) table
      → table ≤ e
      → e < table + 0x1000
      → flags % 2 ≡ 1
      → flags < 128
      → IsSpace (With l f.frame) (with_table e flags s f)
  unfolding with_table
  table-IsSpace e l table flags s f h is lo hi odd small = record {
    tables = λ k t i. with-IsTable k t i;
    only = λ k k' t a b. With-only l k k' t s f h a b;
    down = λ k t a i lo' hi' p g.
        table-down e l table flags s f h is lo hi odd small k t a i lo' hi' _ refl p g;
  }
    where
      with-IsTable : (k t : ℕ) → With l f.frame k t → IsTable f.areas' t
      with-IsTable k t i =
          let cases : T k t ⊎ ((k ≡ l) × (t ≡ f.frame)) = unfold With in i in
          elim cases [
            | inl old ↦
                let b = h.tables k t old in
                record { aligned = b.aligned; used = f.still_used t b.used }
            | inr (at, new) ↦ rw new (record { aligned = f.aligned; used = f.now_used })
          ]
