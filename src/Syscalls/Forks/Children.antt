-- ===== src/Syscalls/Forks/Children.antt =====
-- The process that `fork_syscall` of src/syscall.c makes, and where it puts it.
use bayos_kernel.Syscalls.{Kernel, set_user, get_current_process, get_new_pid, from_int}
use bayos_kernel.Syscalls.Forks.{
  copy_process, copy_user, fork_space, process_size, with_child, fork_start, fork_copies,
  set_context_of, after_timer,
}
use bayos_kernel.Alloc.{Allocator, Mem, alloc}
use bayos_kernel.Paging.{Tables}
use bayos_kernel.Resources.{resource_table_alloc}
use bayos_kernel.Sched.{next_of, Sched, insert_process}
use bayos_kernel.Sched.Chains.{Without, Linked-outside}
use bayos_kernel.Sched.ProcessList.{IsList}
use bayos_kernel.Common.{some-equal}
use bayos_kernel.Common.{
  Bool, ◌||◌, if◌then◌else◌, ◌<◌, ℕ, ◌≡◌, ◌≢◌, refl, sym, ap, ◌∙◌, Option, none, some, List, arith,
  true, false, ◌==◌, ◌>>=◌,
}

-- The first part of a chain that returns, and the rest.
bind-some :
    {A B : Type 0}
    → (x : Option A) (f : A → Option B) (b : B) → (x >>= f) ≡ some b
    → (a : A) × (x ≡ some a) × (f a ≡ some b)
bind-some none f b e = absurd (ground (arith, e))
bind-some (some a) f b e = (a, refl, e)

-- A result behind a test that ends the call.
if-some :
    {A : Type 0} (b : Bool) (x : Option A) (y : A)
    → (if b then none else x) ≡ some y
    → (b ≡ false) × (x ≡ some y)
if-some true x y e = absurd (ground (arith, e))
if-some false x y e = (refl, e)

-- The state behind `fork_start`, but for the pages and the heap.
pub record Begun {W : Type 0} (k k1 : Kernel W) (new_cr3 p : ℕ) : Type 0 where
  pub paging : Tables
  pub heap : Mem
  pub resources : ℕ
  pub placed : 0 < p
  pub filled : 0 < resources
  pub state : k1 ≡ with_child p new_cr3 resources (record k { paging = paging; heap = heap })

pub fork_start-Begun :
    {W : Type 0}
    → (arena : Allocator) (k k1 : Kernel W) (new_cr3 p : ℕ)
    → fork_start arena k ≡ some (new_cr3, p, k1)
    → Begun k k1 new_cr3 p
unfolding fork_start
fork_start-Begun arena k k1 new_cr3 p e =
    let (s, es, e1) =
      bind-some (fork_space (k.users (get_current_process k)) k.paging) _ (new_cr3, p, k1) e in
    let (a, ea, e2) = bind-some (alloc arena process_size k.heap) _ (new_cr3, p, k1) e1 in
    let (r, er, e3) =
      bind-some (resource_table_alloc arena (k.users (get_current_process k)).resources_cap a.1) _
        (new_cr3, p, k1) e2 in
    let got = if-some (a.0 == 0 || r.0 == 0) _ _ e3 in
    let same = some-equal _ _ got.1 in
    let number : a.0 ≡ p = ap (λ x. x.1) same in
    let table : s.0 ≡ new_cr3 = ap (λ x. x.0) same in
    record {
      paging = s.1;
      heap = r.1;
      resources = r.0;
      placed = (let z = got.0 in ground (arith, z, number));
      filled = (let z = got.0 in ground (arith, z));
      state =
          sym (ap (λ x. x.2) same)
          ∙ ap (λ x. with_child x s.0 r.0 (record k { paging = s.1; heap = r.1 })) number
          ∙ ap (λ x. with_child p x r.0 (record k { paging = s.1; heap = r.1 })) table;
    }

module _ {W : Type 0} (fuel new_cr3 p context : ℕ) where
  pub run-parent :
      (k1 : Kernel W) (s : Sched)
      → (k1.users (get_current_process k1)).cr3 ≢ new_cr3
      → insert_process fuel p (set_context_of k1.sched p context) ≡ some s
      → after_timer fuel new_cr3 p context k1
        ≡ some (
          from_int (s.procs p).pid,
          record k1 {
            paging = record k1.paging {
              words = fork_copies (k1.users (get_current_process k1)) new_cr3 k1.paging.words;
            };
            sched = s;
          },
        )
  unfolding after_timer
  run-parent k1 s ne e =
      let test : ((k1.users (get_current_process k1)).cr3 == new_cr3) ≡ false =
        ground (arith, ne) in
      rw (test, e) refl

  pub run-child :
      (k1 : Kernel W)
      → (k1.users (get_current_process k1)).cr3 ≡ new_cr3
      → after_timer fuel new_cr3 p context k1 ≡ some (0, k1)
  unfolding after_timer
  run-child k1 e =
      let test : ((k1.users (get_current_process k1)).cr3 == new_cr3) ≡ true = ground (arith, e) in
      rw test refl

-- The scheduler's state that `insert_process` gets: that of `k` but for the new process.
pub record Added (old new : Sched) (p pid context : ℕ) : Type 0 where
  pub first : new.process_list ≡ old.process_list
  pub running : new.current_process ≡ old.current_process
  pub others : (a : ℕ) → a ≢ p → new.procs a ≡ old.procs a
  pub child : new.procs p ≡ record (old.procs old.current_process) { pid = pid; context = context }

module _ {W : Type 0} (new_cr3 p context resources : ℕ) (k : Kernel W) (paging : Tables)
    (heap : Mem) where
  unfoldable pub child_of : Kernel W
  child_of = with_child p new_cr3 resources (record k { paging = paging; heap = heap })

  pub sched-Added : Added k.sched (set_context_of child_of.sched p context) p k.next_pid context
  unfolding set_context_of with_child child_of copy_process get_new_pid set_user
  sched-Added = record {
    first = refl;
    running = refl;
    others = λ a ne. let test : (a == p) ≡ false = ground (arith, ne) in rw test refl;
    child = let test : (p == p) ≡ true = ground arith in rw test refl;
  }

  pub users-others : (a : ℕ) → a ≢ p → child_of.users a ≡ k.users a
  unfolding with_child child_of get_new_pid set_user
  users-others a ne = let test : (a == p) ≡ false = ground (arith, ne) in rw test refl

  pub parent-cr3 :
      get_current_process k ≢ p
      → (k.users (get_current_process k)).cr3 ≢ new_cr3
      → (child_of.users (get_current_process child_of)).cr3 ≢ new_cr3
  unfolding with_child child_of get_new_pid set_user
  parent-cr3 me ne e = ne (ap (λ x. x.cr3) (sym (users-others (get_current_process k) me)) ∙ e)

  pub users-child : child_of.users p ≡ copy_user (k.users (get_current_process k)) new_cr3 resources
  unfolding with_child child_of get_new_pid set_user
  users-child = let test : (p == p) ≡ true = ground arith in rw test refl

  pub tables-child :
      child_of.tables resources ≡ k.tables (k.users (get_current_process k)).resources
  unfolding with_child child_of get_new_pid set_user
  tables-child = let test : (resources == resources) ≡ true = ground arith in rw test refl

pub Added-linked :
    (old new : Sched) (p pid context : ℕ) (qs : List ℕ)
    → Added old new p pid context
    → Without p qs
    → IsList old qs
    → IsList new qs
Added-linked old new p pid context qs a w l = record {
  linked = rw a.first (
      Linked-outside (next_of old.procs) (next_of new.procs) old.process_list qs p w
        (λ b ne. ap (λ x. x.next) (a.others b ne)) l.linked);
  distinct = l.distinct;
}
