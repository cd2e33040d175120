-- ===== src/Sched/RoundRobin.antt =====
-- `schedule` of src/sched.c against a round robin over the list of processes.
use bayos_kernel.Sched.{ProcessStatus}
use bayos_kernel.Common.{◌≢◌}
use bayos_kernel.Sched.Chains.{Linked-head}
use bayos_kernel.Common.{◌-◌}
use bayos_kernel.Sched.Chains.{Linked-same}
use bayos_kernel.Sched.{next_of, set_context}
use bayos_kernel.Common.{length-append}
use bayos_kernel.Common.{◌*◌, if◌then◌else◌, ◌≢◌}
use bayos_kernel.Sched.{set_status, ProcessStatus}
use bayos_kernel.Sched.{Procs, Sched, is_idle, save, switch_to, schedule_loop, schedule}
use bayos_kernel.Sched.Chains.{Linked, Linked-behind}
use bayos_kernel.Common.{
  ℕ, suc, ◌+◌, ◌≤◌, ◌≡◌, refl, sym, ◌∙◌, inl, inr, false, some, List, [], ◌∷◌, ◌++◌, length, arith,
  Bool-cases, Option-cases,
}
use bayos_kernel.Sched.Rounds.{
  loop-wrap, loop-found, loop-past, visit-found, first-append_none, first-append_some,
  first-append_same, first-drop_none, first-idle, first-stop, no_first, first_runnable,
}

-- The loop finds the first runnable process of the round that starts behind the current one.
loop_lem :
    {q : ℕ} (fuel : ℕ) (m : Procs) (list current : ℕ) (before after : List ℕ)
    → 2 * length (before ++ current ∷ after) ≤ fuel
    → Linked (next_of m) list (before ++ current ∷ after)
    → first_runnable m (after ++ (before ++ current ∷ [])) ≡ some q
    → schedule_loop fuel m list current ≡ some q
loop_lem {q} fuel m list current before after h c e = elim (Option-cases (first_runnable m after)) [
  | inl idle_all ↦
      let left = fuel - length after - 1 in
      let (last, end, run) =
        loop-past fuel (suc left) m list current after (omega (arith, sizes)) ahead idle_all in
      run
      ∙ loop-wrap left m list last (Linked-head (next_of m) list before current after c) end
      ∙ visit-found left m list list (before ++ current ∷ after) (omega (arith, sizes)) c (
          first-append_same m before (current ∷ after) (current ∷ [])
            (first-drop_none m current after idle_all)
          ∙ sym (first-append_none m after (before ++ current ∷ []) idle_all)
          ∙ e)
  | inr (r, found) ↦
      loop-found fuel m list current after (omega (arith, sizes)) ahead found
      ∙ sym (first-append_some m after (before ++ current ∷ []) found)
      ∙ e
]
  where
    sizes : length (before ++ current ∷ after) ≡ length before + suc (length after)
    sizes = length-append before (current ∷ after)

    ahead : Linked (next_of m) (m current).next after
    ahead = Linked-behind (next_of m) list before current after c

save-next : (context : ℕ) (s : Sched) (a : ℕ) → (save context s a).next ≡ (s.procs a).next
unfolding save set_status set_context
save-next context s a = ground arith

-- `schedule` ends with the first runnable process.
pub schedule-found :
    {q : ℕ} (fuel context : ℕ) (s : Sched) (before after : List ℕ)
    → 2 * length (before ++ s.current_process ∷ after) ≤ fuel
    → Linked (next_of s.procs) s.process_list (before ++ s.current_process ∷ after)
    → first_runnable (save context s) (after ++ (before ++ s.current_process ∷ [])) ≡ some q
    → schedule fuel context s ≡ some (switch_to (save context s) s q)
unfolding schedule
schedule-found {q} fuel context s before after h c e =
    let same =
      Linked-same (next_of s.procs) (next_of (save context s)) s.process_list
        (before ++ s.current_process ∷ after) (save-next context s) c in
    let found =
      loop_lem fuel (save context s) s.process_list s.current_process before after h same e in
    rw (found, schedule) refl

-- Saving the context changes nothing of who can run.
save-idle :
    (context : ℕ) (s : Sched) (a : ℕ)
    → is_idle (save context s a).status ≡ is_idle (s.procs a).status
unfolding save set_status set_context
save-idle context s a = elim (Bool-cases (is_idle (s.procs s.current_process).status)) [
  | inl t ↦ ground (arith, t)
  | inr f ↦ ground (arith, f)
]

save-runnable :
    (context : ℕ) (s : Sched) (qs : List ℕ)
    → first_runnable (save context s) qs ≡ first_runnable s.procs qs
unfolding first_runnable
save-runnable context s [] = refl
save-runnable context s (q ∷ qs) = rw (save-idle context s q, save-runnable context s qs) refl

-- What `schedule` leaves when it goes from the current process to `q`, and the context that it returns.
pub record Switched (context q : ℕ) (s : Sched) (returned : ℕ) (s' : Sched) : Type 0 where
  pub current : s'.current_process ≡ q
  pub list : s'.process_list ≡ s.process_list
  pub saved : (s'.procs s.current_process).context ≡ context
  pub contexts : (a : ℕ) → a ≢ s.current_process → (s'.procs a).context ≡ (s.procs a).context
  pub back : returned ≡ (s'.procs q).context
  pub running : (s'.procs q).status ≡ ProcessStatus.running
  pub left :
      s.current_process ≢ q
      → (s'.procs s.current_process).status ≡ (
          if is_idle (s.procs s.current_process).status
          then (s.procs s.current_process).status
          else ProcessStatus.ready)
  pub others : (a : ℕ) → a ≢ s.current_process → a ≢ q → s'.procs a ≡ s.procs a
  pub links : (a : ℕ) → (s'.procs a).next ≡ (s.procs a).next

switch_to-Switched :
    (context q : ℕ) (s : Sched)
    → Switched context q s (switch_to (save context s) s q).0 (switch_to (save context s) s q).1
unfolding switch_to save set_status set_context
switch_to-Switched context q s = record {
  current = refl;
  list = refl;
  saved = ground arith;
  contexts = λ a ne. ground (arith, ne);
  back = ground arith;
  running = ground arith;
  left = λ ne. ground (arith, ne);
  others = λ a ne nq. ground (arith, ne, nq);
  links = λ a. ground arith;
}

-- `schedule` picks, of the processes behind the current one and then those from the head of the
-- list on, the current one last, the first that is neither dead nor blocked. It saves the context
-- of the process that it leaves, makes it ready unless it is dead or blocked, makes the other one
-- running and returns its context, and changes no other process; twice as many rounds as there are processes are
-- enough.
pub schedule-RoundRobin :
    {q : ℕ} (fuel context : ℕ) (s : Sched) (before after : List ℕ)
    → 2 * length (before ++ s.current_process ∷ after) ≤ fuel
    → Linked (next_of s.procs) s.process_list (before ++ s.current_process ∷ after)
    → first_runnable s.procs (after ++ (before ++ s.current_process ∷ [])) ≡ some q
    → (returned : ℕ) × (s' : Sched) × (schedule fuel context s ≡ some (returned, s'))
      × Switched context q s returned s'
schedule-RoundRobin {q} fuel context s before after h c e =
    let found = save-runnable context s (after ++ (before ++ s.current_process ∷ [])) ∙ e in
    (
      (switch_to (save context s) s q).0,
      (switch_to (save context s) s q).1,
      schedule-found fuel context s before after h c found,
      switch_to-Switched context q s,
    )

-- Grouping makes no difference.
first_assoc :
    (m : Procs) (ps qs rs : List ℕ)
    → first_runnable m (ps ++ (qs ++ rs)) ≡ first_runnable m (ps ++ qs ++ rs)
first_assoc m [] qs rs = refl
first_assoc m (p ∷ ps) qs rs = elim (Bool-cases (is_idle (m p).status)) [
  | inl idle ↦
      first-idle m p (ps ++ (qs ++ rs)) idle
      ∙ first_assoc m ps qs rs
      ∙ sym (first-idle m p (ps ++ qs ++ rs) idle)
  | inr stop ↦ first-stop m p (ps ++ (qs ++ rs)) stop ∙ sym (first-stop m p (ps ++ qs ++ rs) stop)
]

found-awake :
    {q : ℕ} (m : Procs) (qs : List ℕ) → first_runnable m qs ≡ some q → is_idle (m q).status ≡ false
found-awake m [] e = absurd (no_first m e)
found-awake {q} m (p ∷ ps) e = elim (Bool-cases (is_idle (m p).status)) [
  | inl idle ↦ found-awake m ps (sym (first-idle m p ps idle) ∙ e)
  | inr stop ↦ let here = sym (first-stop m p ps stop) ∙ e in ground (arith, here, stop)
]

-- the round of the current process, if it can run itself
first-last :
    (m : Procs) (qs : List ℕ) (current : ℕ)
    → is_idle (m current).status ≡ false
    → (q : ℕ) × (first_runnable m (qs ++ current ∷ []) ≡ some q)
first-last m [] current e = (current, first-stop m current [] e)
first-last m (q ∷ qs) current e = elim (Bool-cases (is_idle (m q).status)) [
  | inl idle ↦
      let (r, found) = first-last m qs current e in
      (r, first-idle m q (qs ++ current ∷ []) idle ∙ found)
  | inr stop ↦ (q, first-stop m q (qs ++ current ∷ []) stop)
]

-- While the current process is neither dead nor blocked, `schedule` returns, and to a process that is neither dead nor
-- blocked: the first such one behind the current one, or from the head of the list on. Its context is returned,
-- it is running, the context of the process that is left is saved, and no other process has changed.
pub schedule_total :
    (fuel context : ℕ) (s : Sched) (before after : List ℕ)
    → 2 * length (before ++ s.current_process ∷ after) ≤ fuel
    → Linked (next_of s.procs) s.process_list (before ++ s.current_process ∷ after)
    → is_idle (s.procs s.current_process).status ≡ false
    → (q : ℕ) × (returned : ℕ) × (s' : Sched) × (schedule fuel context s ≡ some (returned, s'))
      × Switched context q s returned s'
      × (first_runnable s.procs (after ++ (before ++ s.current_process ∷ [])) ≡ some q)
      × (is_idle (s.procs q).status ≡ false)
schedule_total fuel context s before after h c e =
    let (q, found) = first-last s.procs (after ++ before) s.current_process e in
    let order = first_assoc s.procs after before (s.current_process ∷ []) ∙ found in
    let (returned, s', run, switched) = schedule-RoundRobin fuel context s before after h c order in
    (q, returned, s', run, switched, order, found-awake _ _ order)
