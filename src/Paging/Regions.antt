-- ===== src/Paging/Regions.antt =====
-- `map_memory_page` and `allocate_region` of src/memory.c, one page after the other.
use bayos_kernel.Paging.{Tables, is_present, entry_of, map_levels}
use bayos_kernel.Paging.Frames.{Fresh, alloc_page_or_halt-Fresh}
use bayos_kernel.Paging.Path.{IsPath, entry_of-within, entry_word}
use bayos_kernel.Paging.Entries.{
  HasPages, ensure_table-there, ensure_page-there, with_table, with_page, ensure_table-new,
  ensure_page-new, with_table-at,
}
use bayos_kernel.Paging.Mapping.{map-step}
use bayos_kernel.Paging.Spaces.{IsSpace, With, page-IsSpace, table-IsSpace}
use bayos_kernel.Paging.PathsKept.{page-IsPath, frame-IsPath, table-IsPath}
use bayos_kernel.Common.{
  ℕ, zero, suc, ◌+◌, ◌*◌, ◌/◌, ◌%◌, ◌≤◌, ◌<◌, ◌≡◌, inl, inr, refl, ap, ◌∙◌, some, arith, Bool-cases,
}

-- The tables that a call of `map_levels` leaves, with the new ones among those in use, and `n` free pages.
pub record Laid (T : (level table : ℕ) → Type 0) (level table va flags n : ℕ) (s : Tables)
    : Type 1 where
  pub tables : Tables
  pub run : map_levels level table va flags s ≡ some tables
  pub Now : (level table : ℕ) → Type 0
  pub more : (l t : ℕ) → T l t → Now l t
  pub space : IsSpace Now tables
  pub pages : HasPages n tables
  pub paths : (l t va' : ℕ) → T l t → IsPath l t va' s → IsPath l t va' tables

pub fewer : (n m : ℕ) (s : Tables) → n ≤ m → HasPages m s → HasPages n s
fewer n m s l h = record { valid = h.valid; aligned = h.aligned; free = omega (arith, l, h.free) }

with_table-HasPages :
    (n e flags : ℕ) (s : Tables) (f : Fresh s.areas)
    → HasPages (n + 1) s
    → HasPages n (with_table e flags s f)
unfolding with_table
with_table-HasPages n e flags s f h = record {
  valid = f.valid;
  aligned = f.all_aligned;
  free = omega (arith, h.free, f.count);
}

with_page-HasPages :
    (n e flags : ℕ) (s : Tables) (f : Fresh s.areas)
    → HasPages (n + 1) s
    → HasPages n (with_page e flags s f)
unfolding with_page
with_page-HasPages n e flags s f h = record {
  valid = f.valid;
  aligned = f.all_aligned;
  free = omega (arith, h.free, f.count);
}

next_page : (n : ℕ) (s : Tables) → HasPages (n + 1) s → Fresh s.areas
next_page n s h = alloc_page_or_halt-Fresh s.areas h.valid h.aligned (omega (arith, h.free))

pub map_levels-Laid :
    (T : (level table : ℕ) → Type 0) (level table va flags n : ℕ) (s : Tables)
    → flags % 2 ≡ 1
    → flags < 128
    → HasPages (n + (level + 1)) s
    → IsSpace T s
    → T level table
    → IsPath level table va s
    → Laid T level table va flags n s
unfolding IsPath
map_levels-Laid T zero table va flags n s odd small has h is path =
    let e = entry_of table va 0 in
    let within = entry_of-within table va 0 in
    elim (Bool-cases (is_present (s.words e))) [
      | inl p ↦ record {
        tables = s;
        run = unfold map_levels in ensure_page-there e flags s p;
        Now = T;
        more = λ l t i. i;
        space = h;
        pages = fewer n (n + 1) s (omega arith) has;
        paths = λ l t va' i q. q;
      }
      | inr absent ↦
          let f = next_page n s has in
          record {
            tables = with_page e flags s f;
            run = unfold map_levels in ensure_page-new e flags s f absent;
            Now = T;
            more = λ l t i. i;
            space = page-IsSpace T e table flags s f h is within.0 (omega (arith, within.1));
            pages = with_page-HasPages n e flags s f has;
            paths = λ l t va' i q.
                page-IsPath T e table flags s f h is within.0 (omega (arith, within.1)) l t va' i q;
          }
    ]
map_levels-Laid T (suc level) table va flags n s odd small has h is path =
    let e = entry_of table va (suc level) in
    let within = entry_of-within table va (suc level) in
    elim (Bool-cases (is_present (s.words e))) [
      | inl p ↦
          let (huge, low, ahead) = path.1 p in
          let (small_word, next) =
            h.down level table e is within.0 (omega (arith, within.1)) p huge in
          let m =
            map_levels-Laid T level _ va flags n s odd small
              (fewer (n + (level + 1)) (n + (suc level + 1)) s (omega arith) has) h next ahead in
          record {
            tables = m.tables;
            run = map-step level table va flags s s (ensure_table-there e flags s p) m.run;
            Now = m.Now;
            more = m.more;
            space = m.space;
            pages = m.pages;
            paths = m.paths;
          }
      | inr absent ↦
          let has1 = fewer (n + (level + 1) + 1) (n + (suc level + 1)) s (omega arith) has in
          let f = next_page (n + (level + 1)) s has1 in
          let t = with_table e flags s f in
          let (present, huge, low, next) = entry_word f.frame flags f.aligned f.small odd small in
          let at : t.words e / 0x1000 * 0x1000 ≡ f.frame =
            ap (λ w. w / 0x1000 * 0x1000) (with_table-at e flags s f) ∙ next in
          let new : With T level f.frame level (t.words e / 0x1000 * 0x1000) =
            unfold With in inr (refl, at) in
          let m =
            map_levels-Laid (With T level f.frame) level _ va flags n t odd small
              (with_table-HasPages (n + (level + 1)) e flags s f has1)
              (table-IsSpace T e level table flags s f h is within.0 (omega (arith, within.1)) odd
                small)
              new
              (rw at (
                frame-IsPath T e level table flags s f h is within.0 (omega (arith, within.1)) level
                  va)) in
          record {
            tables = m.tables;
            run = map-step level table va flags s t (ensure_table-new e flags s f absent) m.run;
            Now = m.Now;
            more = λ l x i. m.more l x (unfold With in inl i);
            space = m.space;
            pages = m.pages;
            paths = λ l x va' i q. m.paths l x va' (unfold With in inl i) (
                table-IsPath T e level table flags s f h is within.0 (omega (arith, within.1)) odd
                  small l x va' i q);
          }
    ]
