-- ===== src/Sched/Marked.antt =====
-- `mark_current_proc_as_dead` of src/sched.c.
use bayos_kernel.Sched.{Sched, ProcessStatus, set_status, mark_current_proc_as_dead}
use bayos_kernel.Common.{ℕ, ◌≡◌, refl, true, ◌==◌, arith, inl, inr, Bool-cases}

pub marked-dead :
    (s : Sched)
    → ((mark_current_proc_as_dead s).procs s.current_process).status ≡ ProcessStatus.dead
unfolding mark_current_proc_as_dead set_status
marked-dead s =
    let test : (s.current_process == s.current_process) ≡ true = ground arith in rw test refl

pub marked-next :
    (s : Sched) (a : ℕ) → ((mark_current_proc_as_dead s).procs a).next ≡ (s.procs a).next
unfolding mark_current_proc_as_dead set_status
marked-next s a = elim (Bool-cases (a == s.current_process)) [
  | inl t ↦ rw t refl
  | inr f ↦ rw f refl
]
