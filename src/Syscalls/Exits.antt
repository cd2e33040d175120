-- ===== src/Syscalls/Exits.antt =====
-- `exit_syscall` of src/syscall.c: what is left of the process.
use bayos_kernel.Common.{false}
use bayos_kernel.Common.{true}
use bayos_kernel.Syscalls.{
  Kernel, UserFields, get_current_process, remove_all, free_regions, exit_syscall,
}
use bayos_kernel.Alloc.{Allocator}
use bayos_kernel.Paging.{Tables, page_round_down, free_region}
use bayos_kernel.Paging.Unmapping.{
  Levels, Absent, Unmapped, Absent-Unmapped, Cleared, Cleared-trans, Levels-Cleared, zero-Absent,
}
use bayos_kernel.Paging.Freeing.{free_region-Absent}
use bayos_kernel.Resources.{Resource, ResourceType, Table, resource_remove}
use bayos_kernel.Resources.Slots.{cleared}
use bayos_kernel.Sched.Marked.{marked-dead, marked-next}
use bayos_kernel.Sched.{ProcessStatus}
use bayos_kernel.Common.{
  ◌≤◌, u64_mod, ℕ, ◌+◌, ◌*◌, ◌<◌, ◌≡◌, ◌≢◌, refl, sym, ap, ◌∙◌, some, [], ◌∷◌, ◌++◌, length, arith,
  get_elem?, set, pos, ◌==◌,
}

abbrev nothing : Resource
nothing = record { kind = ResourceType.empty; res = 0 }

set-behind :
    (front : Table) (x y : Resource) (back : Table)
    → set (front ++ x ∷ back) (length front) y ≡ front ++ y ∷ back
set-behind [] x y back = refl
set-behind (f ∷ front) x y back = ap (λ t. f ∷ t) (set-behind front x y back)

get-behind :
    (front : Table) (x : Resource) (back : Table)
    → get_elem? (front ++ x ∷ back) (length front) ≡ some x
get-behind [] x back = refl
get-behind (f ∷ front) x back = get-behind front x back

remove-slot :
    (i : ℕ) (t : Table) (x : Resource)
    → get_elem? t i ≡ some x
    → (resource_remove (pos i) t).1 ≡ set t i nothing
unfolding resource_remove
remove-slot i t x e = rw (e, resource_remove) refl

remove-behind :
    (i : ℕ) (front : Table) (x : Resource) (back : Table)
    → i ≡ length front
    → (resource_remove (pos i) (front ++ x ∷ back)).1 ≡ front ++ nothing ∷ back
remove-behind i front x back e =
    remove-slot i _ x (ap (λ k. get_elem? (front ++ x ∷ back) k) e ∙ get-behind front x back)
    ∙ ap (λ k. set (front ++ x ∷ back) k nothing) e
    ∙ set-behind front x nothing back

shift :
    (front : Table) (x : Resource) (back : Table) → (front ++ x ∷ []) ++ back ≡ front ++ x ∷ back
shift [] x back = refl
shift (f ∷ front) x back = ap (λ t. f ∷ t) (shift front x back)

length-shift : (front : Table) (x : Resource) → length (front ++ x ∷ []) ≡ length front + 1
length-shift [] x = omega arith
length-shift (f ∷ front) x = let rest = length-shift front x in omega (arith, rest)

remove_all-behind :
    (i : ℕ) (front back : Table)
    → i ≡ length front
    → remove_all (length back) i (front ++ back) ≡ front ++ cleared (length back)
unfolding remove_all cleared
remove_all-behind i front [] e = refl
remove_all-behind i front (x ∷ back) e =
    ap (λ t. remove_all (length back) (i + 1) t)
      (remove-behind i front x back e ∙ sym (shift front nothing back))
    ∙ remove_all-behind (i + 1) (front ++ nothing ∷ []) back next
    ∙ shift front nothing (cleared (length back))
  where
    next : i + 1 ≡ length (front ++ nothing ∷ [])
    next = let l = length-shift front nothing in omega (arith, e, l)

remove_all_lem : (n : ℕ) (t : Table) → n ≡ length t → remove_all n 0 t ≡ cleared n
remove_all_lem n t e = rw e (remove_all-behind 0 [] t refl)

module _ (T : (level table : ℕ) → Type 0) where
  -- The pages from `start` on are not mapped.
  unfoldable pub NoEntries : (pml4 start stop : ℕ) → (ℕ → ℕ) → Type 0
  NoEntries pml4 start stop words =
      (j : ℕ)
      → page_round_down start + j * 0x1000 < stop
      → Absent pml4 (page_round_down start + j * 0x1000) words

  NoEntries-Cleared :
      (pml4 start stop : ℕ) (words words' : ℕ → ℕ)
      → Levels T words
      → T 3 pml4
      → Cleared T words words'
      → NoEntries pml4 start stop words
      → NoEntries pml4 start stop words'
  unfolding NoEntries
  NoEntries-Cleared pml4 start stop words words' h is c free j l =
      zero-Absent T pml4 _ words words' h is c (free j l)

  -- No page of the region is mapped, for the processor.
  unfoldable pub NoPages : (pml4 start stop : ℕ) → (ℕ → ℕ) → Type 0
  NoPages pml4 start stop words =
      (j : ℕ)
      → page_round_down start + j * 0x1000 < stop
      → Unmapped pml4 (page_round_down start + j * 0x1000) words

  NoEntries-NoPages :
      (pml4 start stop : ℕ) (words : ℕ → ℕ)
      → NoEntries pml4 start stop words
      → NoPages pml4 start stop words
  unfolding NoEntries NoPages
  NoEntries-NoPages pml4 start stop words none_left j l =
      Absent-Unmapped pml4 _ words (none_left j l)

  -- The user's pages: the stack, the program and what `anon_allocate_syscall` has mapped.
  pub record NoUserPages (u : UserFields) (words : ℕ → ℕ) : Type 0 where
    pub stack : NoPages u.cr3 0x20_0000 0x40_0000 words
    pub program : NoPages u.cr3 0x40_0000 u.elf_end words
    pub anonymous : NoPages u.cr3 0x80_0000 u.anon_allocate_end words

  free_regions-NoUserPages :
      (u : UserFields) (s : Tables)
      → Levels T s.words
      → T 3 u.cr3
      → u.elf_end + 0x1000 ≤ u64_mod
      → u.anon_allocate_end + 0x1000 ≤ u64_mod
      → NoUserPages u (free_regions u s).words × Cleared T s.words (free_regions u s).words
  unfolding free_regions NoEntries
  free_regions-NoUserPages u s h is be ba =
      let s1 = free_region u.cr3 0x20_0000 0x40_0000 s in
      let s2 = free_region u.cr3 0x40_0000 u.elf_end s1 in
      let s3 = free_region u.cr3 0x80_0000 u.anon_allocate_end s2 in
      let (a, c1) = free_region-Absent T u.cr3 0x20_0000 0x40_0000 s (omega arith) h is in
      let h1 = Levels-Cleared T s.words s1.words h c1 in
      let (b, c2) = free_region-Absent T u.cr3 0x40_0000 u.elf_end s1 be h1 is in
      let h2 = Levels-Cleared T s1.words s2.words h1 c2 in
      let (c, c3) = free_region-Absent T u.cr3 0x80_0000 u.anon_allocate_end s2 ba h2 is in
      let c23 = Cleared-trans T s1.words s2.words s3.words c2 c3 in
      (
        record {
          stack =
              NoEntries-NoPages _ _ _ _
                (NoEntries-Cleared u.cr3 0x20_0000 0x40_0000 s1.words s3.words h1 is c23 a);
          program =
              NoEntries-NoPages _ _ _ _
                (NoEntries-Cleared u.cr3 0x40_0000 u.elf_end s2.words s3.words h2 is c3 b);
          anonymous = NoEntries-NoPages _ _ _ _ c;
        },
        Cleared-trans T s.words s1.words s3.words c1 c23,
      )

  module _ {W : Type 0} (arena : Allocator) (k : Kernel W) where
    -- Where `Levels` describes the page tables of the current process (an entry of an upper table that is present, and no
    -- huge page, leads to a table of the level below, and no table stands on two levels), `resources_cap` is the size of its table of resources
    -- and its regions end a page below 2 ^ 64 at least: after `exit_syscall` the process is dead, every slot of that
    -- table is empty, and the processor finds none of its pages; the list of processes, the other tables of
    -- resources and the page tables but for entries of pages that are now 0 are as they were.
    pub exit_syscall_lem :
        Levels T k.paging.words
        → T 3 (k.users (get_current_process k)).cr3
        → (k.users (get_current_process k)).resources_cap
          ≡ length (k.tables (k.users (get_current_process k)).resources)
        → (k.users (get_current_process k)).elf_end + 0x1000 ≤ u64_mod
        → (k.users (get_current_process k)).anon_allocate_end + 0x1000 ≤ u64_mod
        → let k' = exit_syscall arena k in
          let u = k.users (get_current_process k) in
          ((k'.sched.procs (get_current_process k)).status ≡ ProcessStatus.dead)
          × ((a : ℕ) → (k'.sched.procs a).next ≡ (k.sched.procs a).next)
          × (k'.tables u.resources ≡ cleared u.resources_cap)
          × ((a : ℕ) → a ≢ u.resources → k'.tables a ≡ k.tables a)
          × NoUserPages u k'.paging.words
          × Cleared T k.paging.words k'.paging.words
    unfolding exit_syscall
    exit_syscall_lem h is cap be ba =
        let u = k.users (get_current_process k) in
        let here : (u.resources == u.resources) ≡ true = ground arith in
        let (free, c) = free_regions-NoUserPages u k.paging h is be ba in
        (
          marked-dead k.sched,
          marked-next k.sched,
          rw here (remove_all_lem u.resources_cap (k.tables u.resources) cap),
          λ a ne. (let other : (a == u.resources) ≡ false = ground (arith, ne) in rw other refl),
          free,
          c,
        )
