-- ===== src/Sched/Next.antt =====
-- `schedule` of src/sched.c, when the process behind the current one can run.
use bayos_kernel.Sched.{
  next_of, ProcessStatus, Procs, Sched, set_status, set_context, is_idle, save, switch_to, schedule,
}
use bayos_kernel.Sched.Chains.{Linked}
use bayos_kernel.Sched.Rounds.{first-stop}
use bayos_kernel.Sched.RoundRobin.{schedule-found}
use bayos_kernel.Common.{
  ℕ, ◌*◌, ◌≤◌, ◌≡◌, ◌≢◌, refl, sym, ap, ◌∙◌, true, false, some, List, [], ◌∷◌, ◌++◌, length, arith,
  ◌==◌, Bool-cases, inl, inr,
}

save-by :
    (P : Procs → Type 0) (context : ℕ) (s : Sched)
    → P (set_context s.procs s.current_process context)
    → P (
        set_status
          (set_context s.procs s.current_process context)
          s.current_process
          ProcessStatus.ready)
    → P (save context s)
unfolding save
save-by P context s idle other =
    let m = set_context s.procs s.current_process context in
    elim (Bool-cases (is_idle (m s.current_process).status)) [
      | inl t ↦ rw t idle
      | inr f ↦ rw f other
    ]

save-other :
    (context : ℕ) (s : Sched) (a : ℕ) → a ≢ s.current_process → save context s a ≡ s.procs a
unfolding set_status set_context
save-other context s a ne =
    let test : (a == s.current_process) ≡ false = ground (arith, ne) in
    save-by (λ m. m a ≡ s.procs a) context s (rw test refl) (rw test refl)

save-context : (context : ℕ) (s : Sched) → (save context s s.current_process).context ≡ context
unfolding set_status set_context
save-context context s =
    let test : (s.current_process == s.current_process) ≡ true = ground arith in
    save-by (λ m. (m s.current_process).context ≡ context) context s (rw test refl) (rw test refl)

switched-other : (m : Procs) (s : Sched) (q a : ℕ) → a ≢ q → (switch_to m s q).1.procs a ≡ m a
unfolding switch_to set_status
switched-other m s q a ne = let test : (a == q) ≡ false = ground (arith, ne) in rw test refl

switched-here :
    (m : Procs) (s : Sched) (q : ℕ) → ((switch_to m s q).1.procs q).status ≡ ProcessStatus.running
unfolding switch_to set_status
switched-here m s q = let test : (q == q) ≡ true = ground arith in rw test refl

-- It returns the context of that process, which is then the current one and running, and saves that of the other.
pub schedule-next :
    (fuel context : ℕ) (s : Sched) (before after : List ℕ) (r : ℕ)
    → 2 * length (before ++ s.current_process ∷ r ∷ after) ≤ fuel
    → Linked (next_of s.procs) s.process_list (before ++ s.current_process ∷ r ∷ after)
    → r ≢ s.current_process
    → is_idle (s.procs r).status ≡ false
    → (s' : Sched) × (schedule fuel context s ≡ some ((s.procs r).context, s'))
      × (s'.current_process ≡ r)
      × ((s'.procs r).status ≡ ProcessStatus.running)
      × ((s'.procs s.current_process).context ≡ context)
unfolding switch_to
schedule-next fuel context s before after r h c ne awake =
    let m = save context s in
    let same = save-other context s r ne in
    let first =
      first-stop m r (after ++ (before ++ s.current_process ∷ []))
        (ap (λ x. is_idle x.status) same ∙ awake) in
    let run = schedule-found fuel context s before (r ∷ after) h c first in
    (
      (switch_to m s r).1,
      run ∙ ap (λ x. some (x.context, (switch_to m s r).1)) same,
      refl,
      switched-here m s r,
      ap (λ x. x.context) (switched-other m s r s.current_process (λ e. ne (sym e)))
          ∙ save-context context s,
    )
