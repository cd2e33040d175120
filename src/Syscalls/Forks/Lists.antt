-- ===== src/Syscalls/Forks/Lists.antt =====
-- `fork_syscall` of src/syscall.c and the list of processes.
use bayos_kernel.Syscalls.{Kernel, get_current_process, from_int}
use bayos_kernel.Syscalls.Forks.{
  copy_user, with_child, fork_start, fork_copies, set_context_of, after_timer, fork_syscall,
}
use bayos_kernel.Syscalls.Forks.Children.{
  fork_start-Begun, run-parent, child_of, sched-Added, parent-cr3, Added-linked,
}
use bayos_kernel.Alloc.{Allocator}
use bayos_kernel.Sched.{insert_process}
use bayos_kernel.Sched.Chains.{Without}
use bayos_kernel.Sched.Lookup.{Listed}
use bayos_kernel.Sched.ProcessList.{IsList, unlinked}
use bayos_kernel.Sched.Endless.{insert_process-endless}
use bayos_kernel.Common.{ℕ, ◌≤◌, ◌≡◌, ◌≢◌, ap, ◌∙◌, none, some, List, [], ◌∷◌, ◌++◌, length, refl}

-- What a call of `fork_syscall` leaves, in the parent and for the child `p`.
pub record Forked {W : Type 0} (fuel new_cr3 p context result : ℕ) (k k2 : Kernel W) (qs : List ℕ)
    : Type 0 where
  pub list : IsList k2.sched (qs ++ p ∷ [])
  pub number : result ≡ from_int k.next_pid
  pub child :
      unlinked (k2.sched.procs p)
      ≡ unlinked
          (record (k.sched.procs (get_current_process k)) { pid = k.next_pid; context = context })
  pub resources : ℕ
  pub space : k2.users p ≡ copy_user (k.users (get_current_process k)) new_cr3 resources
  pub table : k2.tables resources ≡ k.tables (k.users (get_current_process k)).resources
  pub others :
      (a : ℕ)
      → a ≢ p
      → (unlinked (k2.sched.procs a) ≡ unlinked (k.sched.procs a)) × (k2.users a ≡ k.users a)
  pub in_child :
      (k3 : Kernel W)
      → k3.users (get_current_process k3) ≡ k2.users p
      → after_timer fuel new_cr3 p context k3 ≡ some (0, k3)

module _ {W : Type 0} (fuel : ℕ) (arena : Allocator) (new_cr3 p context : ℕ) (k k1 : Kernel W) where
  fork-run :
      (result : ℕ) (k2 : Kernel W)
      → fork_start arena k ≡ some (new_cr3, p, k1)
      → after_timer fuel new_cr3 p context k1 ≡ some (result, k2)
      → fork_syscall fuel arena context k ≡ some (new_cr3, p, result, k2)
  unfolding fork_syscall
  fork-run result k2 a b = rw (a, b) refl

  -- If there was memory for the child (the first part of `fork_syscall`, up to its label, returns), neither its record nor
  -- its page table is one in use, and the current process is not the last one of the list: `fork_syscall` returns too, but the
  -- list that it leaves has no end: whatever process is inserted then, by another call too, no number of rounds is
  -- enough.
  pub fork_syscall-endless :
      (q : ℕ) (qs : List ℕ)
      → length (q ∷ qs) ≤ fuel
      → fork_start arena k ≡ some (new_cr3, p, k1)
      → Without p (q ∷ qs)
      → get_current_process k ≢ p
      → (k.users (get_current_process k)).cr3 ≢ new_cr3
      → IsList k.sched (q ∷ qs)
      → Listed (k.sched.procs (get_current_process k)).next (q ∷ qs)
      → (result : ℕ) × (k2 : Kernel W) × (fork_syscall fuel arena context k
          ≡ some (new_cr3, p, result, k2))
        × ((rounds x : ℕ) → insert_process rounds x k2.sched ≡ none)
  unfolding child_of with_child
  fork_syscall-endless q qs h start w me ne l back =
      let b = fork_start-Begun arena k k1 new_cr3 p start in
      let pos = b.placed in
      let c = child_of new_cr3 p context b.resources k b.paging b.heap in
      let a = sched-Added new_cr3 p context b.resources k b.paging b.heap in
      let s = set_context_of c.sched p context in
      let link : Listed (s.procs p).next (q ∷ qs) = rw (ap (λ x. x.next) a.child) back in
      let (m, run, stuck) =
        insert_process-endless fuel p q s qs h
          (Added-linked k.sched s p k.next_pid context (q ∷ qs) a w l) w pos link in
      (
        from_int (m p).pid,
        record c {
          paging = record c.paging {
            words = fork_copies (c.users (get_current_process c)) new_cr3 c.paging.words;
          };
          sched = record s { procs = m };
        },
        fork-run _ _ start (
            ap (λ x. after_timer fuel new_cr3 p context x) b.state
            ∙ run-parent fuel new_cr3 p context c (record s { procs = m })
                (parent-cr3 new_cr3 p context b.resources k b.paging b.heap me ne) run),
        stuck,
      )
