-- ===== src/Elf/Pages.antt =====
-- The pages that `map_elf` of src/elf.c maps for a program.
use bayos_kernel.Elf.{ElfProgram, map_pages, page_count}
use bayos_kernel.Elf.Segments.{Apart}
use bayos_kernel.Paging.{Tables, map_memory_page}
use bayos_kernel.Paging.Path.{IsPath, Extends-refl, Extends-trans}
use bayos_kernel.Paging.Entries.{HasPages}
use bayos_kernel.Paging.Spaces.{IsSpace}
use bayos_kernel.Paging.Regions.{fewer}
use bayos_kernel.Paging.Allocating.{IsMapped, IsMapped-kept, After, map_one}
use bayos_kernel.Common.{
  ℕ, zero, suc, ◌+◌, ◌*◌, ◌/◌, ◌<◌, ◌≡◌, refl, sym, some, List, [], ◌∷◌, arith, ◌==◌, if◌then◌else◌,
}

-- The pages that the bytes of a program in memory take, and those of all programs that are loaded.
abbrev pub pages_of : ElfProgram → ℕ
pages_of p = (p.p_memsz + 0xfff) / 0x1000

unfoldable pub all_pages : List ElfProgram → ℕ
all_pages [] = 0
all_pages (p ∷ ps) = (if p.p_type == 1 then pages_of p else 0) + all_pages ps

pub page_count-pages :
    (header size : ℕ) (p : ElfProgram) → Apart header size p → page_count p ≡ pages_of p
unfolding page_count
page_count-pages header size p h = ground (arith, h.low)

pub After-refl :
    (T : (level table : ℕ) → Type 0) (n : ℕ) (s : Tables)
    → HasPages n s
    → IsSpace T s
    → After T n s s
After-refl T n s has h = record {
  Now = T;
  more = λ l t i. i;
  space = h;
  pages = has;
  extends = Extends-refl s;
  paths = λ l t va i q. q;
}

pub After-trans :
    (T : (level table : ℕ) → Type 0) (k n : ℕ) (s s1 s' : Tables) (a : After T k s s1)
    → After a.Now n s1 s'
    → After T n s s'
After-trans T k n s s1 s' a b = record {
  Now = b.Now;
  more = λ l t i. b.more l t (a.more l t i);
  space = b.space;
  pages = b.pages;
  extends = Extends-trans a.extends b.extends;
  paths = λ l t va i q. b.paths l t va (a.more l t i) (a.paths l t va i q);
}

map_pages-step :
    (rounds j cr3 vaddr : ℕ) (s s1 s' : Tables)
    → map_memory_page cr3 (vaddr + j * 0x1000) 7 s ≡ some s1
    → map_pages rounds (j + 1) cr3 vaddr s1 ≡ some s'
    → map_pages (suc rounds) j cr3 vaddr s ≡ some s'
unfolding map_pages
map_pages-step rounds j cr3 vaddr s s1 s' a b = rw (a, map_pages) b

pub map_pages-Mapped :
    (T : (level table : ℕ) → Type 0) (rounds j cr3 vaddr n : ℕ) (s : Tables)
    → HasPages (n + 4 * rounds) s
    → IsSpace T s
    → T 3 cr3
    → ((i : ℕ) → i < rounds → IsPath 3 cr3 (vaddr + (j + i) * 0x1000) s)
    → (s' : Tables) × (map_pages rounds j cr3 vaddr s ≡ some s')
      × ((i : ℕ) → i < rounds → IsMapped cr3 (vaddr + (j + i) * 0x1000) s'.words)
      × After T n s s'
map_pages-Mapped T zero j cr3 vaddr n s has h is q = (
  s,
  (unfold map_pages in refl),
  (λ i l. absurd (omega (arith, l))),
  After-refl T n s (fewer n (n + 4 * 0) s (omega arith) has) h,
)
map_pages-Mapped T (suc rounds) j cr3 vaddr n s has h is q =
    let first : vaddr + (j + 0) * 0x1000 ≡ vaddr + j * 0x1000 = omega arith in
    let (s1, run, here, a) =
      map_one cr3 7 refl (omega arith) T (vaddr + j * 0x1000) (n + 4 * rounds) s
        (fewer (n + 4 * rounds + 4) (n + 4 * suc rounds) s (omega arith) has) h is
        (rw (sym first) (q 0 (omega arith))) in
    let (s', runs, later, b) =
      map_pages-Mapped a.Now rounds (j + 1) cr3 vaddr n s1 a.pages a.space (a.more 3 cr3 is) (λ i l.
        let e : vaddr + (j + suc i) * 0x1000 ≡ vaddr + (j + 1 + i) * 0x1000 = omega arith in
        a.paths 3 cr3 _ is (rw (sym e) (q (suc i) (omega (arith, l))))) in
    let kept =
      IsMapped-kept a.Now cr3 (vaddr + j * 0x1000) s1 s' a.space (a.more 3 cr3 is) b.extends here in
    (
      s',
      map_pages-step rounds j cr3 vaddr s s1 s' run runs,
      page_of s'.words kept later,
      After-trans T (n + 4 * rounds) n s s1 s' a b,
    )
  where
    page_of :
        (words : ℕ → ℕ)
        → IsMapped cr3 (vaddr + j * 0x1000) words
        → ((i : ℕ) → i < rounds → IsMapped cr3 (vaddr + (j + 1 + i) * 0x1000) words)
        → (i : ℕ) → i < suc rounds
        → IsMapped cr3 (vaddr + (j + i) * 0x1000) words
    page_of words first later zero l =
        let e : vaddr + (j + 0) * 0x1000 ≡ vaddr + j * 0x1000 = omega arith in rw e first
    page_of words first later (suc i) l =
        let e : vaddr + (j + suc i) * 0x1000 ≡ vaddr + (j + 1 + i) * 0x1000 = omega arith in
        rw e (later i (omega (arith, l)))
