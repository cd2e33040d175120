-- ===== src/Paging/PathsKept.antt =====
-- What a new page and a new table of src/memory.c leave of the paths through the tables.
use bayos_kernel.Paging.{entry_of, Tables, is_present, is_huge, set_word}
use bayos_kernel.Paging.Frames.{Fresh}
use bayos_kernel.Paging.Path.{IsTable, IsPath, entry_of-within, entry_word}
use bayos_kernel.Paging.Entries.{with_table, with_page, with_table-at}
use bayos_kernel.Paging.Unmapping.{zero_absent}
use bayos_kernel.Common.{
  ℕ, zero, suc, ◌+◌, ◌*◌, ◌/◌, ◌%◌, ◌≤◌, ◌<◌, ◌≡◌, ◌≢◌, inl, inr, sym, ap, ◌∙◌, arith, ◌==◌, ==_iff,
  Bool-cases,
}
use bayos_kernel.Paging.Spaces.{
  IsSpace, same_page, set_word-other, given_apart, given_outside, with_table-other, with_table-zero,
}

module _ (T : (level table : ℕ) → Type 0) where
  -- A new page leaves the paths as they are.
  pub page-IsPath :
      (e table flags : ℕ) (s : Tables) (f : Fresh s.areas)
      → IsSpace T s
      → T 0 table
      → table ≤ e
      → e < table + 0x1000
      → (l t va : ℕ) → T l t
      → IsPath l t va s
      → IsPath l t va (with_page e flags s f)
  unfolding IsPath with_page set_word
  page-IsPath e table flags s f h is lo hi zero t va i b = record {
    aligned = b.aligned;
    used = f.still_used t b.used;
  }
  page-IsPath e table flags s f h is lo hi (suc l) t va i (b, q) =
      let a = entry_of t va (suc l) in
      let within = entry_of-within t va (suc l) in
      let other : a ≢ e = λ z.
        let same =
          same_page T s t table a (h.tables (suc l) t i) (h.tables 0 table is) within.0
            (omega (arith, within.1)) (omega (arith, z, lo)) (omega (arith, z, hi)) in
        let there : T 0 t = rw same is in
        let levels = h.only 0 (suc l) t there i in absurd (omega (arith, levels)) in
      let word = set_word-other s.words e (f.frame + flags) a other in
      (
        record { aligned = b.aligned; used = f.still_used t b.used },
        λ p.
            let old = sym (ap is_present word) ∙ p in
            let (huge, low, next) = q old in
            let (small, there) = h.down l t a i within.0 (omega (arith, within.1)) old huge in
            let rest = page-IsPath e table flags s f h is lo hi l _ va there next in
            (ap is_huge word ∙ huge, omega (arith, word, low), rw word rest),
      )

  -- From the new table on, nothing is there.
  pub frame-IsPath :
      (e l table flags : ℕ) (s : Tables) (f : Fresh s.areas)
      → IsSpace T s
      → T (suc l) table
      → table ≤ e
      → e < table + 0x1000
      → (k va : ℕ) → IsPath k f.frame va (with_table e flags s f)
  unfolding IsPath
  frame-IsPath e l table flags s f h is lo hi zero va =
      unfold with_table in record { aligned = f.aligned; used = f.now_used }
  frame-IsPath e l table flags s f h is lo hi (suc k) va =
      let a = entry_of f.frame va (suc k) in
      let within = entry_of-within f.frame va (suc k) in
      let b = h.tables (suc l) table is in
      let ne : a ≢ e = λ z.
        given_apart s f table b
          (omega (arith, z, within.0, within.1, lo, hi, b.aligned, f.aligned)) in
      let word = with_table-zero e flags s f a ne within.0 (omega (arith, within.1)) in
      (
        (unfold with_table in record { aligned = f.aligned; used = f.now_used }),
        λ p. absurd (ground (arith, zero_absent, ap is_present word, p)),
      )

  -- A new table leaves the paths free of huge pages.
  pub table-IsPath :
      (e l table flags : ℕ) (s : Tables) (f : Fresh s.areas)
      → IsSpace T s
      → T (suc l) table
      → table ≤ e
      → e < table + 0x1000
      → flags % 2 ≡ 1
      → flags < 128
      → (k t va : ℕ) → T k t
      → IsPath k t va s
      → IsPath k t va (with_table e flags s f)
  unfolding IsPath
  table-IsPath e l table flags s f h is lo hi odd small zero t va i b =
      unfold with_table in record { aligned = b.aligned; used = f.still_used t b.used }
  table-IsPath e l table flags s f h is lo hi odd small (suc k) t va i (b, q) =
      let a = entry_of t va (suc k) in
      let within = entry_of-within t va (suc k) in
      let here : IsTable f.areas' t = record {
        aligned = b.aligned;
        used = f.still_used t b.used;
      } in
      elim (Bool-cases (a == e)) [
        | inl z ↦
            let ez = (==_iff a e).0 z in
            let (present, huge, low, next) = entry_word f.frame flags f.aligned f.small odd small in
            let word : (with_table e flags s f).words a ≡ f.frame + flags =
              ap (with_table e flags s f).words ez ∙ with_table-at e flags s f in
            let at : (with_table e flags s f).words a / 0x1000 * 0x1000 ≡ f.frame =
              ap (λ x. x / 0x1000 * 0x1000) word ∙ next in
            (
              (unfold with_table in here),
              λ p. (
                ap is_huge word ∙ huge,
                omega (arith, word, low),
                rw at (frame-IsPath e l table flags s f h is lo hi k va),
              ),
            )
        | inr z ↦
            let ne : a ≢ e = ground (arith, z) in
            let word =
              with_table-other e flags s f a ne
                (given_outside s f t a b within.0 (omega (arith, within.1))) in
            (
              (unfold with_table in here),
              λ p.
                  let old = sym (ap is_present word) ∙ p in
                  let (huge, low, next) = q old in
                  let (lower, there) = h.down k t a i within.0 (omega (arith, within.1)) old huge in
                  let rest =
                    table-IsPath e l table flags s f h is lo hi odd small k _ va there next in
                  (ap is_huge word ∙ huge, omega (arith, word, low), rw word rest),
            )
      ]
