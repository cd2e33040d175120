-- ===== src/Paging/Mapping.antt =====
-- `map_memory_page` and `walk` of src/memory.c agree.
use bayos_kernel.Paging.Entries.{
  HasPages, ensure_table-there, ensure_page-there, with_table, with_page, ensure_table-new,
  ensure_page-new, with_table-at, with_page-at, with_table-Extends, with_page-Extends, Fresh-IsPath,
  has_rest, IsPath-at,
}
use bayos_kernel.Paging.{
  Tables, is_present, is_huge, pte_addr, entry_of, ensure_table, ensure_page, map_levels,
  map_memory_page, walk_levels, walk,
}
use bayos_kernel.Paging.Frames.{alloc_page_or_halt-Fresh}
use bayos_kernel.Paging.Path.{
  IsTable, IsPath, Extends, Extends-refl, Extends-trans, entry_of-within, entry_word,
  pte_addr-small,
}
use bayos_kernel.Common.{
  ℕ, zero, suc, ◌*◌, ◌/◌, ◌%◌, ◌^◌, ◌<◌, ◌≡◌, refl, ap, ◌∙◌, inl, inr, true, false, some, arith,
  Bool-cases,
}

-- What `map_memory_page` leaves, from a level on.
pub record Mapped (level table va flags : ℕ) (s : Tables) : Type 0 where
  pub tables : Tables
  pub run : map_levels level table va flags s ≡ some tables
  pub entry : ℕ
  pub found : walk_levels level table va tables.words ≡ some entry
  pub present : is_present (tables.words entry) ≡ true
  pub extends : Extends s tables

pub walk-step :
    {entry : ℕ} (level table va : ℕ) (words : ℕ → ℕ)
    → is_present (words (entry_of table va (suc level))) ≡ true
    → is_huge (words (entry_of table va (suc level))) ≡ false
    → walk_levels level (pte_addr (words (entry_of table va (suc level)))) va words ≡ some entry
    → walk_levels (suc level) table va words ≡ some entry
unfolding walk_levels
walk-step level table va words p h e = rw (p, h) e

pub map-step :
    {u : Tables} (level table va flags : ℕ) (s t : Tables)
    → ensure_table (entry_of table va (suc level)) flags s ≡ some t
    → map_levels level (t.words (entry_of table va (suc level)) / 0x1000 * 0x1000) va flags t
      ≡ some u
    → map_levels (suc level) table va flags s ≡ some u
unfolding map_levels
map-step level table va flags s t e f = rw (e, map_levels) f

-- One level, when the entry `t.words entry` is there and the levels below it are mapped.
step-Mapped :
    (level table va flags : ℕ) (s t : Tables)
    → ensure_table (entry_of table va (suc level)) flags s ≡ some t
    → Extends s t
    → IsTable t.areas table
    → is_present (t.words (entry_of table va (suc level))) ≡ true
    → is_huge (t.words (entry_of table va (suc level))) ≡ false
    → t.words (entry_of table va (suc level)) < 2 ^ 52
    → Mapped level (t.words (entry_of table va (suc level)) / 0x1000 * 0x1000) va flags t
    → Mapped (suc level) table va flags s
step-Mapped level table va flags s t run ext is p h small m =
    let e = entry_of table va (suc level) in
    let within = entry_of-within table va (suc level) in
    let same = m.extends.kept table e is within.0 (omega (arith, within.1)) p in
    let next = pte_addr-small (t.words e) small in
    record {
      tables = m.tables;
      run = map-step level table va flags s t run m.run;
      entry = m.entry;
      found =
          walk-step level table va m.tables.words (ap is_present same ∙ p) (ap is_huge same ∙ h) (
            ap (λ w. walk_levels level (pte_addr w) va m.tables.words) same
            ∙ ap (λ a. walk_levels level a va m.tables.words) next
            ∙ m.found);
      present = m.present;
      extends = Extends-trans ext m.extends;
    }

page-Mapped :
    (table va flags : ℕ) (s t : Tables)
    → ensure_page (entry_of table va 0) flags s ≡ some t
    → Extends s t
    → is_present (t.words (entry_of table va 0)) ≡ true
    → Mapped 0 table va flags s
page-Mapped table va flags s t run ext p = record {
  tables = t;
  run = unfold map_levels in run;
  entry = entry_of table va 0;
  found = unfold walk_levels in refl;
  present = p;
  extends = ext;
}

map_levels-Mapped :
    (level table va flags : ℕ) (s : Tables)
    → flags % 2 ≡ 1
    → flags < 128
    → HasPages (suc level) s
    → IsPath level table va s
    → Mapped level table va flags s
unfolding IsPath
map_levels-Mapped zero table va flags s odd small has is =
    elim (Bool-cases (is_present (s.words (entry_of table va 0)))) [
      | inl p ↦
          page-Mapped table va flags s s (ensure_page-there (entry_of table va 0) flags s p)
            (Extends-refl s) p
      | inr absent ↦
          let e = entry_of table va 0 in
          let f =
            alloc_page_or_halt-Fresh s.areas has.valid has.aligned (omega (arith, has.free)) in
          let word = entry_word f.frame flags f.aligned f.small odd small in
          page-Mapped table va flags s (with_page e flags s f) (ensure_page-new e flags s f absent)
            (with_page-Extends e flags s f absent)
            (ap is_present (with_page-at e flags s f) ∙ word.0)
    ]
map_levels-Mapped (suc level) table va flags s odd small has (is, below) =
    let e = entry_of table va (suc level) in
    elim (Bool-cases (is_present (s.words e))) [
      | inl p ↦
          let (h, low, path) = below p in
          let less : HasPages (suc level) s = record {
            valid = has.valid;
            aligned = has.aligned;
            free = omega (arith, has.free);
          } in
          step-Mapped level table va flags s s (ensure_table-there e flags s p) (Extends-refl s) is
            p h low
            (map_levels-Mapped level (s.words e / 0x1000 * 0x1000) va flags s odd small less path)
      | inr absent ↦
          let f =
            alloc_page_or_halt-Fresh s.areas has.valid has.aligned (omega (arith, has.free)) in
          let t = with_table e flags s f in
          let (p, h, low, next) = entry_word f.frame flags f.aligned f.small odd small in
          let at = with_table-at e flags s f in
          let ext = with_table-Extends e flags s f absent in
          let within = entry_of-within table va (suc level) in
          let path =
            Fresh-IsPath level table e va flags s f is within.0 (omega (arith, within.1)) in
          step-Mapped level table va flags s t (ensure_table-new e flags s f absent) ext
            (record { aligned = is.aligned; used = ext.used table is.used }) (ap is_present at ∙ p)
            (ap is_huge at ∙ h) (omega (arith, at, low))
            (map_levels-Mapped level (t.words e / 0x1000 * 0x1000) va flags t odd small
              (has_rest level e flags s has f)
              (IsPath-at level va t (ap (λ w. w / 0x1000 * 0x1000) at ∙ next) path))
    ]

-- `map_memory_page` with the flags of a present page, with four free pages and tables that lead to no
-- huge page, returns. Then `walk` finds an entry for the address, which is present; no entry that was in a table
-- has changed, and no page in use has become free.
pub map_memory_page-walk :
    (cr3 virt flags : ℕ) (s : Tables)
    → flags % 2 ≡ 1
    → flags < 128
    → HasPages 4 s
    → IsPath 3 cr3 virt s
    → (s' : Tables) × (entry : ℕ) × (map_memory_page cr3 virt flags s ≡ some s')
      × (walk cr3 virt s'.words ≡ some entry)
      × (is_present (s'.words entry) ≡ true)
      × Extends s s'
unfolding map_memory_page walk
map_memory_page-walk cr3 virt flags s odd small has is =
    let m = map_levels-Mapped 3 cr3 virt flags s odd small has is in
    (m.tables, m.entry, m.run, m.found, m.present, m.extends)
