-- ===== src/Syscalls/Waits.antt =====
-- `waitpid_syscall` of src/syscall.c: the processes that it waits for, and those that it refuses.
use bayos_kernel.Syscalls.{Kernel, is_dead, from_int, wait_loop, waitpid_syscall}
use bayos_kernel.Alloc.{Allocator, free}
use bayos_kernel.Sched.{Procs, Sched, get_proc_from_pid, remove_proc_from_list}
use bayos_kernel.Sched.Lookup.{Listed, HasNone, Answer, get_proc_from_pid-Answer}
use bayos_kernel.Sched.ProcessList.{IsList}
use bayos_kernel.Sched.Removal.{Taken, remove_proc_from_list-Taken}
use bayos_kernel.Sched.Endless.{Listed-positive}
use bayos_kernel.Common.{
  ℕ, zero, suc, ◌-◌, ◌^◌, ◌≤◌, ◌<◌, ◌≡◌, ◌≢◌, ◌⊎◌, inl, inr, refl, sym, ap, ◌∙◌, some, List, [],
  ◌∷◌, length, arith, true, false, ◌==◌, ◌||◌, Bool-cases,
}

-- The state after `n` calls of `yield`.
unfoldable pub yields : {W : Type 0} → (Kernel W → Kernel W) → ℕ → Kernel W → Kernel W
yields yield zero k = k
yields yield (suc n) k = yields yield n (yield k)

HasNone-Listed :
    (m : Procs) (pid c : ℕ) (qs : List ℕ) → HasNone m pid qs → Listed c qs → (m c).pid ≢ pid
unfolding HasNone Listed
HasNone-Listed m pid c [] h l = absurd l
HasNone-Listed m pid c (q ∷ qs) h (inl e) = λ z. h.0 (sym (ap (λ x. (m x).pid) e) ∙ z)
HasNone-Listed m pid c (q ∷ qs) h (inr l) = HasNone-Listed m pid c qs h.1 l

module _ {W : Type 0} (yield : Kernel W → Kernel W) (fuel : ℕ) (arena : Allocator) where
  wait-stop :
      (f c : ℕ) (k : Kernel W)
      → is_dead (k.sched.procs c).status ≡ true
      → wait_loop yield (suc f) c k ≡ some k
  unfolding wait_loop
  wait-stop f c k e = rw e refl

  wait-step :
      (f c : ℕ) (k : Kernel W)
      → is_dead (k.sched.procs c).status ≡ false
      → wait_loop yield (suc f) c k ≡ wait_loop yield f c (yield k)
  unfolding wait_loop
  wait-step f c k e = rw e refl

  wait_loop-yields :
      (n f c : ℕ) (k : Kernel W)
      → n < f
      → ((i : ℕ) → i < n → is_dead ((yields yield i k).sched.procs c).status ≡ false)
      → is_dead ((yields yield n k).sched.procs c).status ≡ true
      → wait_loop yield f c k ≡ some (yields yield n k)
  unfolding yields
  wait_loop-yields n zero c k l alive dead = absurd (omega arith)
  wait_loop-yields zero (suc f) c k l alive dead = wait-stop f c k dead
  wait_loop-yields (suc n) (suc f) c k l alive dead =
      wait-step f c k (alive 0 (omega arith))
      ∙ wait_loop-yields n f c (yield k) (omega arith) (λ i h. alive (suc i) (omega arith)) dead

  waitpid-run :
      (pid status c : ℕ) (k k1 : Kernel W) (s : Sched)
      → status ≢ 0
      → pid ≢ 2 ^ 32 - 1
      → c ≢ 0
      → get_proc_from_pid fuel pid k.sched ≡ some c
      → wait_loop yield fuel c k ≡ some k1
      → remove_proc_from_list fuel c k1.sched ≡ some s
      → waitpid_syscall yield fuel arena pid status k
        ≡ some (from_int pid, record k1 { sched = s; heap = free arena c k1.heap })
  unfolding waitpid_syscall
  waitpid-run pid status c k k1 s st p nn found waited removed =
      let first : (status == 0 || pid == 2 ^ 32 - 1) ≡ false = ground (arith, st, p) in
      let second : (c == 0) ≡ false = ground (arith, nn) in
      rw (first, found, second, waited, removed) refl

  -- `waitpid_syscall` for a process that is the only one of the list with its number, and is dead after `n` calls of
  -- `yield` and not before: it returns the number with that state, but without the process in the list, and
  -- with its memory freed. The fuel is to be more than `n` and than the processes before and after.
  pub waitpid_syscall-Taken :
      (n pid status c : ℕ) (k : Kernel W) (qs qs' : List ℕ)
      → status ≢ 0
      → pid ≢ 2 ^ 32 - 1
      → n < fuel
      → length qs < fuel
      → length qs' ≤ fuel
      → IsList k.sched qs
      → Listed c qs
      → (k.sched.procs c).pid ≡ pid
      → ((a : ℕ) → Listed a qs → (k.sched.procs a).pid ≡ pid → a ≡ c)
      → ((i : ℕ) → i < n → is_dead ((yields yield i k).sched.procs c).status ≡ false)
      → is_dead ((yields yield n k).sched.procs c).status ≡ true
      → IsList (yields yield n k).sched qs'
      → let k1 = yields yield n k in
        (s : Sched) × (waitpid_syscall yield fuel arena pid status k
          ≡ some (from_int pid, record k1 { sched = s; heap = free arena c k1.heap }))
        × Taken k1.sched s c qs'
  unfolding Answer
  waitpid_syscall-Taken n pid status c k qs qs' st p few short short' l here number only alive dead
        l' =
      let k1 = yields yield n k in
      let cpos = Listed-positive _ c k.sched.process_list qs l.linked here in
      let (r, run, answer) = get_proc_from_pid-Answer fuel pid k.sched qs short l in
      let found : r ≡ c = elim answer [
        | inl (z, none_has) ↦ absurd (HasNone-Listed k.sched.procs pid c qs none_has here number)
        | inr (there, e) ↦ only r there e
      ] in
      let (s, removed, taken) = remove_proc_from_list-Taken fuel c k1.sched qs' short' cpos l' in
      (
        s,
        waitpid-run pid status c k k1 s st p (λ z. absurd (omega (arith, z, cpos)))
            (run ∙ ap some found) (wait_loop-yields n fuel c k few alive dead) removed,
        taken,
      )

  -- `waitpid_syscall` returns -1, and changes nothing, if there is no place for the status, or if the number is
  -- -1 or that of no process in the list.
  pub waitpid_syscall-refused :
      (pid status : ℕ) (k : Kernel W) (qs : List ℕ)
      → length qs < fuel
      → IsList k.sched qs
      → (status ≡ 0) ⊎ ((pid ≡ 2 ^ 32 - 1) ⊎ HasNone k.sched.procs pid qs)
      → waitpid_syscall yield fuel arena pid status k ≡ some (2 ^ 64 - 1, k)
  unfolding waitpid_syscall Answer
  waitpid_syscall-refused pid status k qs short l why =
      elim (Bool-cases (status == 0 || pid == 2 ^ 32 - 1)) [
        | inl t ↦ rw t refl
        | inr f ↦
            let (r, run, answer) = get_proc_from_pid-Answer fuel pid k.sched qs short l in
            let none_found : r ≡ 0 = elim answer [
              | inl (z, rest) ↦ z
              | inr (there, e) ↦ elim why [
                | inl a ↦ absurd (ground (arith, a, f))
                | inr (inl b) ↦ absurd (ground (arith, b, f))
                | inr (inr h) ↦ absurd (HasNone-Listed k.sched.procs pid r qs h there e)
              ]
            ] in
            rw (f, run, none_found) refl
      ]
