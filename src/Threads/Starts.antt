-- ===== src/Threads/Starts.antt =====
-- The list of processes behind `sched_init` and `add_process` of src/sched.c.
use bayos_kernel.Threads.{
  stack_words, new_process, put_process, new_fields, sched_init, add_process, pic_writes,
  pit_writes,
}
use bayos_kernel.Threads.Frames.{IsContext, stack_words-IsContext, stack_words-outside}
use bayos_kernel.Alloc.{Allocator, Mem, alloc}
use bayos_kernel.Interrupts.{Idt, idt_set_descriptor}
use bayos_kernel.Sched.{next_of, Process, ProcessStatus, Sched, insert_process}
use bayos_kernel.Sched.Chains.{Linked, Without, IsDistinct, Linked-outside}
use bayos_kernel.Sched.ProcessList.{IsList, unlinked, insert_process-IsList}
use bayos_kernel.Syscalls.{Kernel, set_user, get_current_process}
use bayos_kernel.Syscalls.Forks.{process_size}
use bayos_kernel.Common.{
  ℕ, ◌+◌, ◌-◌, ◌^◌, ◌≤◌, ◌<◌, ◌≡◌, ◌≢◌, ◌⊎◌, refl, ap, ◌∙◌, true, false, some, List, [], ◌∷◌, ◌++◌,
  length, arith, ◌==◌,
}

put-here : (s : Sched) (p : ℕ) (q : Process) → (put_process s p q).procs p ≡ q
unfolding put_process
put-here s p q = let test : (p == p) ≡ true = ground arith in rw test refl

put-other : (s : Sched) (p a : ℕ) (q : Process) → a ≢ p → (put_process s p q).procs a ≡ s.procs a
unfolding put_process
put-other s p a q ne = let test : (a == p) ≡ false = ground (arith, ne) in rw test refl

put-IsList :
    (s : Sched) (p : ℕ) (q : Process) (qs : List ℕ)
    → Without p qs
    → IsList s qs
    → IsList (put_process s p q) qs
put-IsList s p q qs w l = record {
  linked =
      unfold put_process in
      Linked-outside (next_of s.procs) (next_of (put_process s p q).procs) s.process_list qs p w
        (λ a ne. ap (λ x. x.next) (put-other s p a q ne)) l.linked;
  distinct = l.distinct;
}

-- What `add_process` leaves.
pub record Started {W : Type 0} (p stack cr3 func : ℕ) (qs : List ℕ) (k k' : Kernel W)
    : Type 0 where
  pub list : IsList k'.sched (qs ++ p ∷ [])
  pub running : get_current_process k' ≡ get_current_process k
  pub process :
      unlinked (k'.sched.procs p) ≡ new_process ProcessStatus.ready 0 (stack + 0x2000 - 160)
  pub fields : k'.users p ≡ new_fields cr3 stack 0x800000
  pub context : IsContext (stack + 0x2000 - 160) func 0x8 0x202 (stack + 0x1ff0) 0x10 k'.words
  pub others :
      (a : ℕ)
      → a ≢ p
      → (unlinked (k'.sched.procs a) ≡ unlinked (k.sched.procs a)) × (k'.users a ≡ k.users a)
  pub memory : (a : ℕ) → (a < stack) ⊎ (stack + 0x2000 ≤ a) → k'.words a ≡ k.words a

module _ {W : Type 0} (fuel : ℕ) (arena : Allocator) (cr3 func : ℕ) (k : Kernel W) where
  added : (p stack : ℕ) → Mem → Sched → Kernel W
  unfolding set_user
  added p stack heap s =
      set_user (record k { heap = heap; sched = s; words = stack_words stack func k.words }) p
        (new_fields cr3 stack 0x800000)

  add-run :
      (p stack : ℕ) (h1 h2 : Mem) (s : Sched)
      → alloc arena process_size k.heap ≡ some (p, h1)
      → alloc arena 0x2000 h1 ≡ some (stack, h2)
      → insert_process fuel p
          (put_process k.sched p (new_process ProcessStatus.ready 0 (stack + 0x2000 - 160)))
        ≡ some s
      → add_process fuel arena cr3 func k ≡ some (added p stack h2 s)
  unfolding add_process added
  add-run p stack h1 h2 s a b c = rw (a, b, c) refl

  -- When `alloc` gives it memory that is no process of the list, `add_process` returns, with as many rounds as
  -- there are processes. The new process is at the end of the list, ready, with a context on its stack from which
  -- `iretq` goes to the function with the segments 0x8 and 0x10; no other process and no other memory has changed.
  pub add_process-Started :
      (p stack q : ℕ) (h1 h2 : Mem) (qs : List ℕ)
      → length (q ∷ qs) ≤ fuel
      → alloc arena process_size k.heap ≡ some (p, h1)
      → alloc arena 0x2000 h1 ≡ some (stack, h2)
      → 0 < p
      → Without p (q ∷ qs)
      → IsList k.sched (q ∷ qs)
      → (k' : Kernel W) × (add_process fuel arena cr3 func k ≡ some k')
        × Started p stack cr3 func (q ∷ qs) k k'
  unfolding added set_user unlinked new_process
  add_process-Started p stack q h1 h2 qs h a b pos w l =
      let fresh = new_process ProcessStatus.ready 0 (stack + 0x2000 - 160) in
      let s = put_process k.sched p fresh in
      let end : (s.procs p).next ≡ 0 = ap (λ x. x.next) (put-here k.sched p fresh) in
      let (m, run, list, same) =
        insert_process-IsList fuel p q s qs h (put-IsList k.sched p fresh (q ∷ qs) w l) w pos end in
      let here : (p == p) ≡ true = ground arith in
      (
        added p stack h2 (record s { procs = m }),
        add-run p stack h1 h2 (record s { procs = m }) a b run,
        record {
          list = list;
          running = unfold put_process in refl;
          process = same p ∙ ap unlinked (put-here k.sched p fresh);
          fields = rw here refl;
          context = stack_words-IsContext stack func k.words;
          others = λ x ne. (
            same x ∙ ap unlinked (put-other k.sched p x fresh ne),
            (let other : (x == p) ≡ false = ground (arith, ne) in rw other refl),
          );
          memory = λ x out. stack_words-outside stack func k.words x out;
        },
      )

  -- When `alloc` gives it memory, `sched_init` makes the list of one process, the current one, which is running and
  -- has the number -1, and sets the gate 0x20 to the handler of the timer.
  pub sched_init-IsList :
      (timer_int_handler p : ℕ) (idt : Idt) (h1 : Mem)
      → alloc arena process_size k.heap ≡ some (p, h1)
      → 0 < p
      → (k' : Kernel W) × (sched_init arena timer_int_handler cr3 idt k
          ≡ some
              (pic_writes ++ pit_writes, idt_set_descriptor idt 0x20 timer_int_handler 0x8e 0, k'))
        × IsList k'.sched (p ∷ [])
        × (get_current_process k' ≡ p)
        × (k'.sched.procs p ≡ new_process ProcessStatus.running (2 ^ 32 - 1) 0)
        × (k'.users p ≡ new_fields cr3 0 0)
        × (k'.heap ≡ h1)
  unfolding sched_init set_user Linked IsDistinct Without new_process
  sched_init-IsList timer p idt h1 a pos =
      let fresh = new_process ProcessStatus.running (2 ^ 32 - 1) 0 in
      let here : (p == p) ≡ true = ground arith in
      let s : Sched = record (put_process k.sched p fresh) {
        process_list = p;
        current_process = p;
      } in
      (
        set_user (record k { heap = h1; sched = s }) p (new_fields cr3 0 0),
        rw a refl,
        record {
          linked = (refl, pos, ap (λ x. x.next) (put-here k.sched p fresh));
          distinct = (tt, tt);
        },
        refl,
        put-here k.sched p fresh,
        rw here refl,
        refl,
      )
