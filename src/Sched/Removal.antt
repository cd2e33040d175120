-- ===== src/Sched/Removal.antt =====
-- `remove_proc_from_list` of src/sched.c against the list of processes.
use bayos_kernel.Sched.{next_of, Procs, Sched, set_next, remove_loop, remove_proc_from_list}
use bayos_kernel.Sched.Chains.{Linked, Linked-at, Linked-list, Without, IsDistinct}
use bayos_kernel.Sched.ProcessList.{unlinked, IsList}
use bayos_kernel.Common.{
  ℕ, ◌≤◌, ◌<◌, ◌≡◌, refl, sym, ap, ◌∙◌, ◌⊎◌, inl, inr, some, List, [], ◌∷◌, length, arith,
  Bool-cases, ◌≢◌, ◌==◌, ==_iff,
}
use bayos_kernel.Sched.Unlink.{
  without-hit, without-miss, set_next-same, set_next-here, Linked-set_next, remove-Removed,
  without-IsDistinct, without-gone, without, Removed,
}

-- What `remove_proc_from_list` leaves: the list without the process, the other processes in their
-- order, and nothing changed but links. A process that was in the list has none afterwards.
pub record Taken (s s' : Sched) (p : ℕ) (qs : List ℕ) : Type 0 where
  pub list : IsList s' (without p qs)
  pub gone : Without p (without p qs)
  pub cut : Without p qs ⊎ ((s'.procs p).next ≡ 0)
  pub same : (a : ℕ) → unlinked (s'.procs a) ≡ unlinked (s.procs a)
  pub current : s'.current_process ≡ s.current_process

remove-head :
    (fuel p : ℕ) (s : Sched)
    → 0 < p
    → s.process_list ≡ p
    → remove_proc_from_list fuel p s
      ≡ some (record s { process_list = (s.procs p).next; procs = set_next s.procs p 0 })
unfolding remove_proc_from_list
remove-head fuel p s pos e = ground arith

remove-run :
    {m : Procs} (fuel p : ℕ) (s : Sched)
    → 0 < p
    → 0 < s.process_list
    → s.process_list ≢ p
    → remove_loop fuel s.procs s.process_list p ≡ some m
    → remove_proc_from_list fuel p s ≡ some (record s { procs = m })
unfolding remove_proc_from_list
remove-run {m} fuel p s pos some_list ne e = ground arith

remove-none :
    (fuel p : ℕ) (s : Sched) → s.process_list ≡ 0 → remove_proc_from_list fuel p s ≡ some s
unfolding remove_proc_from_list
remove-none fuel p s e = ground arith

Taken-head :
    (s : Sched) (p q : ℕ) (qs : List ℕ)
    → IsList s (q ∷ qs)
    → q ≡ p
    → Taken s
        (record s { process_list = (s.procs p).next; procs = set_next s.procs p 0 })
        p
        (q ∷ qs)
unfolding Linked IsDistinct
Taken-head s p q qs l e = record {
  list = rw (sym (without-hit p q qs e)) at list;
  gone = without-gone p (q ∷ qs) l.distinct;
  cut = inr (set_next-here s.procs p 0);
  same = set_next-same s.procs p 0;
  current = refl;
}
  where
    list : IsList (record s { process_list = (s.procs p).next; procs = set_next s.procs p 0 }) qs
    list = record {
      linked = Linked-set_next s.procs p 0 _ qs (rw e at l.distinct.0) (rw e at l.linked.2);
      distinct = l.distinct.1;
    }

Taken-behind :
    (s : Sched) (m : Procs) (p q : ℕ) (qs : List ℕ)
    → IsList s (q ∷ qs)
    → q ≢ p
    → Removed s.procs m q p qs
    → Taken s (record s { procs = m }) p (q ∷ qs)
unfolding Linked Without
Taken-behind s m p q qs l other r = record {
  list = record {
    linked =
        Linked-list (next_of m) s.process_list (sym (without-miss p q qs other))
          (Linked-at (next_of m) (q ∷ without p qs) l.linked.0 r.relinked.linked);
    distinct = without-IsDistinct p (q ∷ qs) l.distinct;
  };
  gone = without-gone p (q ∷ qs) l.distinct;
  cut = elim r.cut [ inl v ↦ inl (λ e. other (sym e), v) | inr e ↦ inr e ];
  same = r.relinked.same;
  current = refl;
}

-- `remove_proc_from_list` of any process returns, with as many rounds as there are processes, and
-- leaves the list without it.
pub remove_proc_from_list-Taken :
    (fuel p : ℕ) (s : Sched) (qs : List ℕ)
    → length qs ≤ fuel
    → 0 < p
    → IsList s qs
    → (s' : Sched) × (remove_proc_from_list fuel p s ≡ some s') × Taken s s' p qs
unfolding Linked IsDistinct without Without
remove_proc_from_list-Taken fuel p s [] h pos l = (
  s,
  remove-none fuel p s l.linked,
  record { list = l; gone = tt; cut = inl tt; same = λ a. refl; current = refl },
)
remove_proc_from_list-Taken fuel p s (q ∷ qs) h pos l =
    let (at, qpos, c) = l.linked in
    elim (Bool-cases (q == p)) [
      | inl hit ↦
          let e = (==_iff q p).0 hit in
          (
            record s { process_list = (s.procs p).next; procs = set_next s.procs p 0 },
            remove-head fuel p s pos (at ∙ e),
            Taken-head s p q qs l e,
          )
      | inr miss ↦
          let other : q ≢ p = ground (arith, miss) in
          let (m, run, r) =
            remove-Removed fuel s.procs q p qs (omega arith) qpos other pos c l.distinct in
          (
            record s { procs = m },
            remove-run fuel p s pos (omega (arith, at, qpos)) (λ e. other (sym at ∙ e))
                (ap (λ a. remove_loop fuel s.procs a p) at ∙ run),
            Taken-behind s m p q qs l other r,
          )
    ]
