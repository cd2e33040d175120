-- ===== src/Syscalls/Allocates.antt =====
-- `anon_allocate_syscall` of src/syscall.c: the pages that the process gets.
use bayos_kernel.Syscalls.{
  Kernel, set_user, get_current_process, pages_of, anon_loop, anon_allocate_syscall,
}
use bayos_kernel.Paging.{Tables, map_memory_page}
use bayos_kernel.Paging.Path.{Extends-refl, Extends-trans}
use bayos_kernel.Paging.Entries.{HasPages}
use bayos_kernel.Paging.Spaces.{IsSpace}
use bayos_kernel.Paging.Regions.{fewer}
use bayos_kernel.Paging.Allocating.{
  AllPaths, first-IsPath, later-AllPaths, IsMapped, IsMapped-kept, After, map_one,
}
use bayos_kernel.Common.{
  ℕ, zero, suc, ◌+◌, ◌*◌, ◌/◌, ◌%◌, ◌^◌, ◌≤◌, ◌<◌, ◌≡◌, ◌≢◌, refl, sym, ◌∙◌, true, false, some,
  arith, add64, ltb, ◌==◌, if◌then◌else◌,
}

-- `7`: present, writable, for the user
odd_flags : 7 % 2 ≡ 1
odd_flags = refl

one_more :
    (cr3 e rounds : ℕ) (words : ℕ → ℕ)
    → IsMapped cr3 e words
    → ((i : ℕ) → i < rounds → IsMapped cr3 (e + 0x1000 + i * 0x1000) words)
    → (j : ℕ) → j < suc rounds
    → IsMapped cr3 (e + j * 0x1000) words
one_more cr3 e rounds words here later zero l =
    let same : e + 0 * 0x1000 ≡ e = omega arith in rw same here
one_more cr3 e rounds words here later (suc i) l =
    let same : e + suc i * 0x1000 ≡ e + 0x1000 + i * 0x1000 = omega arith in
    rw same (later i (omega arith))

-- The same address in another form.
IsMapped-at :
    (cr3 a b i : ℕ) (words : ℕ → ℕ)
    → a ≡ b
    → IsMapped cr3 (a + i * 0x1000) words
    → IsMapped cr3 (b + i * 0x1000) words
IsMapped-at cr3 a b i words e m = rw (sym e) m

module _ {W : Type 0} (cr3 p : ℕ) where
  -- The state with a page more.
  unfoldable pub grown : Kernel W → Tables → Kernel W
  grown k paging =
      set_user (record k { paging = paging }) p
        (record (k.users p) { anon_allocate_end = add64 (k.users p).anon_allocate_end 0x1000 })

  grown-end :
      (k : Kernel W) (paging : Tables)
      → (k.users p).anon_allocate_end + 0x1000 < 2 ^ 64
      → ((grown k paging).users p).anon_allocate_end ≡ (k.users p).anon_allocate_end + 0x1000
  unfolding grown set_user
  grown-end k paging l =
      let test : (p == p) ≡ true = ground arith in
      let sum : add64 (k.users p).anon_allocate_end 0x1000
          ≡ (k.users p).anon_allocate_end + 0x1000 =
        omega (arith, l) in
      rw test sum

  grown-other :
      (k : Kernel W) (paging : Tables) (a : ℕ) → a ≢ p → (grown k paging).users a ≡ k.users a
  unfolding grown set_user
  grown-other k paging a ne = let test : (a == p) ≡ false = ground (arith, ne) in rw test refl

  anon-step :
      (rounds : ℕ) (k : Kernel W) (paging : Tables)
      → map_memory_page cr3 (k.users p).anon_allocate_end 7 k.paging ≡ some paging
      → anon_loop (suc rounds) cr3 p k ≡ anon_loop rounds cr3 p (grown k paging)
  unfolding anon_loop grown
  anon-step rounds k paging e = rw e refl

  -- What is left of the state when `rounds` pages have been mapped.
  pub record Allocated (T : (level table : ℕ) → Type 0) (rounds n : ℕ) (k k' : Kernel W)
      : Type 1 where
    pub end : (k'.users p).anon_allocate_end ≡ (k.users p).anon_allocate_end + rounds * 0x1000
    pub others : (a : ℕ) → a ≢ p → k'.users a ≡ k.users a
    pub sched : k'.sched ≡ k.sched
    pub mapped :
        (j : ℕ)
        → j < rounds
        → IsMapped cr3 ((k.users p).anon_allocate_end + j * 0x1000) k'.paging.words
    pub after : After T n k.paging k'.paging

  anon_loop-Allocated :
      (T : (level table : ℕ) → Type 0) (rounds n : ℕ) (k : Kernel W)
      → (k.users p).anon_allocate_end + rounds * 0x1000 < 2 ^ 64
      → HasPages (n + 4 * rounds) k.paging
      → IsSpace T k.paging
      → T 3 cr3
      → AllPaths cr3
          (k.users p).anon_allocate_end
          ((k.users p).anon_allocate_end + rounds * 0x1000)
          k.paging
      → (k' : Kernel W) × (anon_loop rounds cr3 p k ≡ some k') × Allocated T rounds n k k'
  unfolding grown set_user
  anon_loop-Allocated T zero n k small has h is q = (
    k,
    (unfold anon_loop in refl),
    record {
      end = omega arith;
      others = λ a ne. refl;
      sched = refl;
      mapped = λ j l. absurd (omega (arith, l));
      after = record {
        Now = T;
        more = λ l t i. i;
        space = h;
        pages = fewer n (n + 4 * 0) k.paging (omega arith) has;
        extends = Extends-refl k.paging;
        paths = λ l t va' i path. path;
      };
    },
  )
  anon_loop-Allocated T (suc rounds) n k small has h is q =
      let e = (k.users p).anon_allocate_end in
      let (s1, run, here, a) =
        map_one cr3 7 odd_flags (omega arith) T e (n + 4 * rounds) k.paging
          (fewer (n + 4 * rounds + 4) (n + 4 * suc rounds) k.paging (omega arith) has) h is
          (first-IsPath cr3 e (e + suc rounds * 0x1000) k.paging (omega arith) q) in
      let k1 = grown k s1 in
      let up = grown-end k s1 (omega (arith, small)) in
      let later = later-AllPaths T cr3 e (e + suc rounds * 0x1000) n k.paging s1 _ a is q in
      let stop : e + 0x1000 + rounds * 0x1000 ≡ e + suc rounds * 0x1000 = omega arith in
      let ahead : AllPaths cr3 (k1.users p).anon_allocate_end
          ((k1.users p).anon_allocate_end + rounds * 0x1000) s1 =
        rw (up, stop) later in
      let (k', runs, r) =
        anon_loop-Allocated a.Now rounds n k1 (omega (arith, up, small)) a.pages a.space
          (a.more 3 cr3 is) ahead in
      (
        k',
        anon-step rounds k s1 run ∙ runs,
        record {
          end = omega (arith, r.end, up);
          others = λ x ne. r.others x ne ∙ grown-other k s1 x ne;
          sched = r.sched;
          mapped =
              one_more cr3 e rounds k'.paging.words
                (IsMapped-kept a.Now cr3 e s1 k'.paging a.space (a.more 3 cr3 is) r.after.extends
                  here)
                (λ i l. IsMapped-at cr3 _ _ i k'.paging.words up (r.mapped i l));
          after = record {
            Now = r.after.Now;
            more = λ l t i. r.after.more l t (a.more l t i);
            space = r.after.space;
            pages = r.after.pages;
            extends = Extends-trans a.extends r.after.extends;
            paths = λ l t va' i path. r.after.paths l t va' (a.more l t i) (a.paths l t va' i path);
          };
        },
      )

anon-run :
    {W : Type 0}
    → (cr3 size ptr : ℕ) (k k1 : Kernel W)
    → anon_loop (pages_of size) cr3 (get_current_process k) k ≡ some k1
    → anon_allocate_syscall cr3 size ptr k
      ≡ some (
        0,
        record k1 {
          words = λ a.
              if a == ptr then (k.users (get_current_process k)).anon_allocate_end else k1.words a;
        },
      )
unfolding anon_allocate_syscall
anon-run cr3 size ptr k k1 e = rw e refl

pages_of-enough :
    (size : ℕ)
    → size < 2 ^ 42
    → (size ≤ pages_of size * 0x1000) × (pages_of size * 0x1000 < size + 0x1000)
unfolding pages_of
pages_of-enough size small =
    let pages : add64 size 0xfff / 0x1000 % 2 ^ 32 ≡ (size + 0xfff) / 0x1000 =
      omega (arith, small) in
    let test : ltb ((size + 0xfff) / 0x1000) (2 ^ 31) ≡ true = ground (arith, small) in
    rw (pages, test) (omega arith, omega arith)

module _ {W : Type 0} (T : (level table : ℕ) → Type 0) (cr3 : ℕ) where
  -- `anon_allocate_syscall` of fewer than 2^42 bytes, with four free pages for each page that they take and below
  -- the end of the address space, in tables of four levels with no huge page on the way to them, returns 0 and writes
  -- the old end of the region to the pointer. From there on as many
  -- pages are mapped as the bytes take, and the end has moved behind them; no other process has changed, the tables in
  -- use stay well formed, no entry that was there has changed, and no page in use has become free.
  pub anon_allocate_syscall-Allocated :
      (size ptr n : ℕ) (k : Kernel W)
      → size < 2 ^ 42
      → (k.users (get_current_process k)).anon_allocate_end + size + 0x1000 < 2 ^ 64
      → HasPages (n + 4 * pages_of size) k.paging
      → IsSpace T k.paging
      → T 3 cr3
      → AllPaths cr3
          (k.users (get_current_process k)).anon_allocate_end
          ((k.users (get_current_process k)).anon_allocate_end + pages_of size * 0x1000)
          k.paging
      → let u = k.users (get_current_process k) in
        (k' : Kernel W) × (anon_allocate_syscall cr3 size ptr k ≡ some (0, k'))
        × (k'.words ptr ≡ u.anon_allocate_end)
        × (size ≤ pages_of size * 0x1000)
        × (pages_of size * 0x1000 < size + 0x1000)
        × Allocated cr3 (get_current_process k) T (pages_of size) n k k'
  anon_allocate_syscall-Allocated size ptr n k small top has h is paths =
      let (enough, least) = pages_of-enough size small in
      let (k1, run, r) =
        anon_loop-Allocated cr3 (get_current_process k) T (pages_of size) n k
          (omega (arith, least, top)) has h is paths in
      let e = (k.users (get_current_process k)).anon_allocate_end in
      let test : (ptr == ptr) ≡ true = ground arith in
      (
        record k1 { words = λ a. if a == ptr then e else k1.words a },
        anon-run cr3 size ptr k k1 run,
        rw test refl,
        enough,
        least,
        record {
          end = r.end;
          others = r.others;
          sched = r.sched;
          mapped = r.mapped;
          after = r.after;
        },
      )
