-- ===== src/Paging/Entries.antt =====
-- What `map_memory_page` of src/memory.c does to the entry of one table.
use bayos_kernel.Paging.{
  Tables, is_present, entry_of, set_word, clear_frame, ensure_table, ensure_page,
}
use bayos_kernel.Paging.Frames.{AllAligned, is_free, free_count, Fresh}
use bayos_kernel.Paging.Path.{IsTable, IsPath, Extends, entry_of-within, written-Extends}
use bayos_kernel.Memory.Pages.{IsAllocator}
use bayos_kernel.Common.{ℕ, zero, suc, ◌+◌, ◌≤◌, ◌<◌, ◌≡◌, ◌≢◌, refl, ap, true, false, some, arith}

-- A well-formed allocator with `n` free pages at least.
pub record HasPages (n : ℕ) (s : Tables) : Type 0 where
  pub valid : IsAllocator s.areas
  pub aligned : AllAligned s.areas
  pub free : n ≤ free_count s.areas

pub ensure_table-there :
    (entry flags : ℕ) (s : Tables)
    → is_present (s.words entry) ≡ true
    → ensure_table entry flags s ≡ some s
unfolding ensure_table
ensure_table-there entry flags s e = rw e refl

pub ensure_page-there :
    (entry flags : ℕ) (s : Tables)
    → is_present (s.words entry) ≡ true
    → ensure_page entry flags s ≡ some s
unfolding ensure_page
ensure_page-there entry flags s e = rw e refl

-- The tables with a new one, or a new page, at `entry`.
unfoldable pub with_table : (entry flags : ℕ) (s : Tables) → Fresh s.areas → Tables
with_table entry flags s f = record {
  areas = f.areas';
  words = set_word (clear_frame s.words f.frame) entry (f.frame + flags);
}

unfoldable pub with_page : (entry flags : ℕ) (s : Tables) → Fresh s.areas → Tables
with_page entry flags s f = record {
  areas = f.areas';
  words = set_word s.words entry (f.frame + flags);
}

pub ensure_table-new :
    (entry flags : ℕ) (s : Tables) (f : Fresh s.areas)
    → is_present (s.words entry) ≡ false
    → ensure_table entry flags s ≡ some (with_table entry flags s f)
unfolding ensure_table with_table
ensure_table-new entry flags s f e = rw (e, f.run) refl

pub ensure_page-new :
    (entry flags : ℕ) (s : Tables) (f : Fresh s.areas)
    → is_present (s.words entry) ≡ false
    → ensure_page entry flags s ≡ some (with_page entry flags s f)
unfolding ensure_page with_page
ensure_page-new entry flags s f e = rw (e, f.run) refl

pub with_table-at :
    (entry flags : ℕ) (s : Tables) (f : Fresh s.areas)
    → (with_table entry flags s f).words entry ≡ f.frame + flags
unfolding with_table set_word
with_table-at entry flags s f = ground arith

pub with_page-at :
    (entry flags : ℕ) (s : Tables) (f : Fresh s.areas)
    → (with_page entry flags s f).words entry ≡ f.frame + flags
unfolding with_page set_word
with_page-at entry flags s f = ground arith

pub with_table-Extends :
    (entry flags : ℕ) (s : Tables) (f : Fresh s.areas)
    → is_present (s.words entry) ≡ false
    → Extends s (with_table entry flags s f)
unfolding with_table clear_frame
with_table-Extends entry flags s f e =
    written-Extends entry (f.frame + flags) f.frame s e f.aligned f.was_free
      (λ a out. ground (arith, out)) f.still_used

pub with_page-Extends :
    (entry flags : ℕ) (s : Tables) (f : Fresh s.areas)
    → is_present (s.words entry) ≡ false
    → Extends s (with_page entry flags s f)
unfolding with_page
with_page-Extends entry flags s f e =
    written-Extends entry (f.frame + flags) f.frame s e f.aligned f.was_free (λ a out. refl)
      f.still_used

zero-absent : {w : ℕ} → w ≡ 0 → is_present w ≡ true → ⊥
unfolding is_present
zero-absent e p = ground (arith, e, p)

cleared :
    (entry word frame a : ℕ) (words : ℕ → ℕ)
    → frame ≤ a
    → a < frame + 0x1000
    → a ≢ entry
    → set_word (clear_frame words frame) entry word a ≡ 0
unfolding set_word clear_frame
cleared entry word frame a words lo hi ne = ground (arith, lo, hi, ne)

-- The way through a table that has just been cleared.
pub Fresh-IsPath :
    (level table entry va flags : ℕ) (s : Tables) (f : Fresh s.areas)
    → IsTable s.areas table
    → table ≤ entry
    → entry < table + 0x1000
    → IsPath level f.frame va (with_table entry flags s f)
unfolding IsPath with_table
Fresh-IsPath zero table entry va flags s f is lo hi = record {
  aligned = f.aligned;
  used = f.now_used;
}
Fresh-IsPath (suc level) table entry va flags s f is lo hi =
    let apart : table ≢ f.frame =
      λ e. absurd (ground (arith, is.used, f.was_free, ap (λ b. is_free s.areas b) e)) in
    let within = entry_of-within f.frame va (suc level) in
    let other : entry_of f.frame va (suc level) ≢ entry =
      λ e. ground (arith, apart, f.aligned, is.aligned, lo, hi, within.0, within.1, e) in
    let empty =
      cleared entry (f.frame + flags) f.frame (entry_of f.frame va (suc level)) s.words within.0
        (omega (arith, within.1)) other in
    (record { aligned = f.aligned; used = f.now_used }, λ p. absurd (zero-absent empty p))

pub has_rest :
    (level entry flags : ℕ) (s : Tables)
    → HasPages (suc (suc level)) s
    → (f : Fresh s.areas) → HasPages (suc level) (with_table entry flags s f)
unfolding with_table
has_rest level entry flags s has f = record {
  valid = f.valid;
  aligned = f.all_aligned;
  free = omega (arith, has.free, f.count);
}

pub IsPath-at :
    {a b : ℕ} (level va : ℕ) (t : Tables) → a ≡ b → IsPath level b va t → IsPath level a va t
IsPath-at level va t e h = rw e h
