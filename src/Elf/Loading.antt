-- ===== src/Elf/Loading.antt =====
-- `map_elf` of src/elf.c loads every program of the file.
use bayos_kernel.Elf.Programs.{
  Beside, AllBeside, AreApart, IsLoaded, AreLoaded, load_all, raise_all, AllOutside,
  load_all-outside, raise_highest-least, raise_all-least,
}
use bayos_kernel.Common.{false, true}
use bayos_kernel.Elf.{
  ElfProgram, map_pages, page_count, load_segment, raise_highest, map_programs, map_elf,
}
use bayos_kernel.Elf.Segments.{
  Apart, load_segment-outside, load_segment-inside, load_segment-behind,
}
use bayos_kernel.Elf.Pages.{
  pages_of, all_pages, page_count-pages, After-refl, After-trans, map_pages-Mapped,
}
use bayos_kernel.Paging.{Tables}
use bayos_kernel.Paging.Entries.{HasPages}
use bayos_kernel.Paging.Spaces.{IsSpace}
use bayos_kernel.Paging.Path.{IsPath}
use bayos_kernel.Paging.Regions.{fewer}
use bayos_kernel.Paging.Allocating.{IsMapped, IsMapped-kept, After}
use bayos_kernel.Common.{◌*◌, sym}
use bayos_kernel.Strings.{Bytes}
use bayos_kernel.Common.{
  ℕ, ◌+◌, ◌≤◌, ◌<◌, ◌≡◌, refl, ◌∙◌, inl, inr, some, List, [], ◌∷◌, arith, ◌==◌, ==_iff, max,
  if◌then◌else◌, Bool-cases,
}

beside-AllOutside :
    (p : ElfProgram) (a : ℕ) (ps : List ElfProgram)
    → p.p_vaddr ≤ a
    → a < p.p_vaddr + max p.p_filesz p.p_memsz
    → AllBeside p ps
    → AllOutside a ps
unfolding AllBeside Beside AllOutside
beside-AllOutside p a [] lo hi b = tt
beside-AllOutside p a (q ∷ qs) lo hi (b, bs) =
    ((λ one. let side = b one in ground (arith, side, lo, hi)), beside-AllOutside p a qs lo hi bs)

file-AllOutside :
    (header size a : ℕ) (ps : List ElfProgram)
    → header ≤ a
    → a < header + size
    → AreApart header size ps
    → AllOutside a ps
unfolding AreApart AllOutside
file-AllOutside header size a [] lo hi h = tt
file-AllOutside header size a (p ∷ ps) lo hi (f, h) = (
  (λ one. let side = (f one).0.apart in ground (arith, side, lo, hi)),
  file-AllOutside header size a ps lo hi h,
)

-- The file is the same in both memories.
AreLoaded-same :
    (header size highest : ℕ) (ps : List ElfProgram) (m m1 m' : Bytes)
    → ((a : ℕ) → header ≤ a → a < header + size → m1 a ≡ m a)
    → AreApart header size ps
    → AreLoaded header highest ps m1 m'
    → AreLoaded header highest ps m m'
unfolding AreApart AreLoaded
AreLoaded-same header size highest [] m m1 m' same h l = tt
AreLoaded-same header size highest (p ∷ ps) m m1 m' same (f, h) (l, ls) = (
  λ one. record {
    bytes = λ k lt.
        let room = (f one).0.within in
        (l one).bytes k lt ∙ same (header + p.p_offset + k) (omega arith) (omega (arith, room, lt));
    zeros = (l one).zeros;
    top = (l one).top;
  },
  AreLoaded-same header size highest ps m m1 m' same h ls,
)

first-IsLoaded :
    (header size highest : ℕ) (p : ElfProgram) (ps : List ElfProgram) (m : Bytes)
    → Apart header size p
    → AllBeside p ps
    → AreApart header size ps
    → IsLoaded header
        (raise_all (raise_highest highest p) ps)
        p
        m
        (load_all header ps (load_segment header p m))
first-IsLoaded header size highest p ps m f b h =
    let m1 = load_segment header p m in
    record {
      bytes = λ k lt.
          load_all-outside header size (p.p_vaddr + k) ps m1 h
            (beside-AllOutside p (p.p_vaddr + k) ps (omega arith) (omega (arith, lt)) b)
          ∙ load_segment-inside header size p m k f lt;
      zeros = λ k lo hi.
          load_all-outside header size (p.p_vaddr + k) ps m1 h
            (beside-AllOutside p (p.p_vaddr + k) ps (omega arith) (omega (arith, hi)) b)
          ∙ load_segment-behind header size p m k f lo hi;
      top =
          let low = f.low in
          let here = (raise_highest-least highest p (omega (arith, low))).1 in
          let rest = raise_all-least header size (raise_highest highest p) ps h in
          omega (arith, here, rest);
    }

load_all-step :
    (header : ℕ) (p : ElfProgram) (ps : List ElfProgram) (m : Bytes)
    → (p.p_type == 1) ≡ true
    → load_all header (p ∷ ps) m ≡ load_all header ps (load_segment header p m)
unfolding load_all
load_all-step header p ps m t = rw t refl

load_all-skip :
    (header : ℕ) (p : ElfProgram) (ps : List ElfProgram) (m : Bytes)
    → (p.p_type == 1) ≡ false
    → load_all header (p ∷ ps) m ≡ load_all header ps m
unfolding load_all
load_all-skip header p ps m n = rw n refl

raise_all-step :
    (highest : ℕ) (p : ElfProgram) (ps : List ElfProgram)
    → (p.p_type == 1) ≡ true
    → raise_all highest (p ∷ ps) ≡ raise_all (raise_highest highest p) ps
unfolding raise_all
raise_all-step highest p ps t = rw t refl

raise_all-skip :
    (highest : ℕ) (p : ElfProgram) (ps : List ElfProgram)
    → (p.p_type == 1) ≡ false
    → raise_all highest (p ∷ ps) ≡ raise_all highest ps
unfolding raise_all
raise_all-skip highest p ps n = rw n refl

load_all-AreLoaded :
    (header size highest : ℕ) (ps : List ElfProgram) (m : Bytes) (top : ℕ) (m' : Bytes)
    → AreApart header size ps
    → top ≡ raise_all highest ps
    → m' ≡ load_all header ps m
    → AreLoaded header top ps m m'
unfolding AreLoaded AreApart
load_all-AreLoaded header size highest [] m top m' h a b = tt
load_all-AreLoaded header size highest (p ∷ ps) m top m' (f, h) a b =
    elim (Bool-cases (p.p_type == 1)) [
      | inl t ↦
          let one = (==_iff p.p_type 1).0 t in
          let (apart, beside) = f one in
          let m1 = load_segment header p m in
          let a' = a ∙ raise_all-step highest p ps t in
          let b' = b ∙ load_all-step header p ps m t in
          (
            λ e. rw (a', b') (first-IsLoaded header size highest p ps m apart beside h),
            AreLoaded-same header size top ps m m1 m'
                (λ q lo hi.
                  let side = apart.apart in
                  load_segment-outside header size p m q apart (ground (arith, side, lo, hi)))
                h (load_all-AreLoaded header size (raise_highest highest p) ps m1 top m' h a' b'),
          )
      | inr n ↦ (
        λ e. absurd (ground (arith, n, e)),
        load_all-AreLoaded header size highest ps m top m' h (a ∙ raise_all-skip highest p ps n)
            (b ∙ load_all-skip header p ps m n),
      )
    ]

-- Every page of the programs that are loaded is mapped.
unfoldable pub AreMapped : (cr3 : ℕ) → List ElfProgram → (ℕ → ℕ) → Type 0
AreMapped cr3 [] words = Unit
AreMapped cr3 (p ∷ ps) words =
    (p.p_type ≡ 1 → (j : ℕ) → j * 0x1000 < p.p_memsz → IsMapped cr3 (p.p_vaddr + j * 0x1000) words)
    × AreMapped cr3 ps words

programs-step :
    (highest cr3 header top : ℕ) (p : ElfProgram) (ps : List ElfProgram) (s s1 s' : Tables)
    (m m' : Bytes)
    → (p.p_type == 1) ≡ true
    → map_pages (page_count p) 0 cr3 p.p_vaddr s ≡ some s1
    → map_programs (raise_highest highest p) cr3 header ps s1 (load_segment header p m)
      ≡ some (top, s', m')
    → map_programs highest cr3 header (p ∷ ps) s m ≡ some (top, s', m')
unfolding map_programs
programs-step highest cr3 header top p ps s s1 s' m m' t a b = rw (t, a, map_programs) b

programs-skip :
    (highest cr3 header top : ℕ) (p : ElfProgram) (ps : List ElfProgram) (s s' : Tables)
    (m m' : Bytes)
    → (p.p_type == 1) ≡ false
    → map_programs highest cr3 header ps s m ≡ some (top, s', m')
    → map_programs highest cr3 header (p ∷ ps) s m ≡ some (top, s', m')
unfolding map_programs
programs-skip highest cr3 header top p ps s s' m m' t b = rw (t, map_programs) b

-- On the way to the pages of the programs that are loaded, there is no huge page.
unfoldable pub AreFree : (cr3 : ℕ) → List ElfProgram → Tables → Type 0
AreFree cr3 [] s = Unit
AreFree cr3 (p ∷ ps) s =
    (p.p_type ≡ 1 → (j : ℕ) → j < pages_of p → IsPath 3 cr3 (p.p_vaddr + j * 0x1000) s)
    × AreFree cr3 ps s

AreFree-kept :
    (T : (level table : ℕ) → Type 0) (cr3 n : ℕ) (ps : List ElfProgram) (s s' : Tables)
    (a : After T n s s')
    → T 3 cr3
    → AreFree cr3 ps s
    → AreFree cr3 ps s'
unfolding AreFree
AreFree-kept T cr3 n [] s s' a is q = tt
AreFree-kept T cr3 n (p ∷ ps) s s' a is (q, qs) =
    ((λ one j l. a.paths 3 cr3 _ is (q one j l)), AreFree-kept T cr3 n ps s s' a is qs)

-- With pages enough, the loop returns with these bytes and pages.
map_programs-all :
    (T : (level table : ℕ) → Type 0) (highest cr3 header size n : ℕ) (ps : List ElfProgram)
    (s : Tables) (m : Bytes)
    → AreApart header size ps
    → HasPages (n + 4 * all_pages ps) s
    → IsSpace T s
    → T 3 cr3
    → AreFree cr3 ps s
    → (s' : Tables) × (map_programs highest cr3 header ps s m
        ≡ some (raise_all highest ps, s', load_all header ps m))
      × AreMapped cr3 ps s'.words
      × After T n s s'
unfolding AreApart AreMapped all_pages AreFree
map_programs-all T highest cr3 header size n [] s m apart has h is q = (
  s,
  (unfold map_programs raise_all load_all in refl),
  tt,
  After-refl T n s (fewer n (n + 4 * 0) s (omega arith) has) h,
)
map_programs-all T highest cr3 header size n (p ∷ ps) s m (f, fs) has h is (q, qs) =
    elim (Bool-cases (p.p_type == 1)) [
      | inr t ↦
          let few : n + 4 * all_pages ps
              ≤ n + 4 * ((if p.p_type == 1 then pages_of p else 0) + all_pages ps) =
            ground arith in
          let (s', run, mapped, a) =
            map_programs-all T highest cr3 header size n ps s m fs (fewer _ _ s few has) h is qs in
          (
            s',
            rw (raise_all-skip highest p ps t, load_all-skip header p ps m t)
                (programs-skip highest cr3 header _ p ps s s' m _ t run),
            ((λ one. absurd (ground (arith, t, one))), mapped),
            a,
          )
      | inl t ↦
          let one = (==_iff p.p_type 1).0 t in
          let same = page_count-pages header size p (f one).0 in
          let k = n + 4 * all_pages ps in
          let few : k + 4 * page_count p
              ≤ n + 4 * ((if p.p_type == 1 then pages_of p else 0) + all_pages ps) =
            rw (t, same) (omega arith) in
          let (s1, run1, here, a) =
            map_pages-Mapped T (page_count p) 0 cr3 p.p_vaddr k s (fewer _ _ s few has) h is
              (λ i l. let to : 0 + i ≡ i = omega arith in rw to (q one i (rw (sym same) l))) in
          let (s', run, mapped, b) =
            map_programs-all a.Now (raise_highest highest p) cr3 header size n ps s1
              (load_segment header p m) fs a.pages a.space (a.more 3 cr3 is)
              (AreFree-kept T cr3 k ps s s1 a is qs) in
          (
            s',
            rw (raise_all-step highest p ps t, load_all-step header p ps m t)
                (programs-step highest cr3 header _ p ps s s1 s' m _ t run1 run),
            (
              (λ e j l.
                  let first = here j (rw same (omega (arith, l))) in
                  let at : p.p_vaddr + (0 + j) * 0x1000 ≡ p.p_vaddr + j * 0x1000 = omega arith in
                  IsMapped-kept a.Now cr3 (p.p_vaddr + j * 0x1000) s1 s' a.space (a.more 3 cr3 is)
                    b.extends (rw (sym at) first)),
              mapped,
            ),
            After-trans T k n s s1 s' a b,
          )
    ]

-- If the programs of the file start with a page, end below 2 ^ 31, have no more bytes in the file than in memory, and go to
-- places apart from the file and from each other, and there are four free pages for each page that they take, in tables of four levels with no huge page on the
-- way to these pages, then `map_elf` returns with every program loaded: its pages are mapped, the bytes of its part of the file are at its
-- address, with zeros behind them, and it does not end above the address that is returned. The tables in use stay well
-- formed, no entry that was there has changed, and no page in use has become free.
pub map_elf-AreLoaded :
    (T : (level table : ℕ) → Type 0) (cr3 header size n : ℕ) (ps : List ElfProgram) (s : Tables)
    (m : Bytes)
    → AreApart header size ps
    → HasPages (n + 4 * all_pages ps) s
    → IsSpace T s
    → T 3 cr3
    → AreFree cr3 ps s
    → (highest : ℕ) × (s' : Tables) × (m' : Bytes) × (map_elf cr3 header ps s m
        ≡ some (highest, s', m'))
      × AreLoaded header highest ps m m'
      × AreMapped cr3 ps s'.words
      × After T n s s'
unfolding map_elf
map_elf-AreLoaded T cr3 header size n ps s m apart has h is q =
    let (s', run, mapped, a) = map_programs-all T 0 cr3 header size n ps s m apart has h is q in
    (
      raise_all 0 ps,
      s',
      load_all header ps m,
      run,
      load_all-AreLoaded header size 0 ps m _ _ apart refl refl,
      mapped,
      a,
    )
