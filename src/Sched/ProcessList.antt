-- ===== src/Sched/ProcessList.antt =====
-- `insert_process` of src/sched.c against the list of processes.
use bayos_kernel.Sched.{next_of, Process, Procs, Sched, set_next, insert_loop, insert_process}
use bayos_kernel.Sched.Chains.{Linked, Without, IsDistinct}
use bayos_kernel.Common.{
  ℕ, zero, suc, ◌≤◌, ◌<◌, ◌≡◌, refl, sym, ap, ◌∙◌, some, List, [], ◌∷◌, ◌++◌, length, arith, ◌≢◌,
}

-- The processes but for their links.
unfoldable pub unlinked : Process → Process
unlinked p = record p { next = 0 }

-- `m'` links `qs` from `l` on, where `m` did before; it has the same links outside of the list, and
-- the same processes but for the links.
pub record Relinked (m m' : Procs) (l p : ℕ) (qs qs' : List ℕ) : Type 0 where
  pub linked : Linked (next_of m') l qs'
  pub outside : (a : ℕ) → a ≢ p → Without a qs → (m' a).next ≡ (m a).next
  pub same : (a : ℕ) → unlinked (m' a) ≡ unlinked (m a)

insert-last :
    (m : Procs) (l p : ℕ)
    → 0 < l
    → 0 < p
    → p ≢ l
    → (m p).next ≡ 0
    → Relinked m (set_next m l p) l p (l ∷ []) (l ∷ p ∷ [])
unfolding set_next Linked Without unlinked
insert-last m l p pos pp ne e = record {
  linked = ground arith;
  outside = λ a n w. ground arith;
  same = λ a. ground arith;
}

pub insert-step :
    (fuel : ℕ) (m : Procs) (l p q : ℕ)
    → 0 < q
    → (m l).next ≡ q
    → insert_loop (suc fuel) m l p ≡ insert_loop fuel m q p
unfolding insert_loop
insert-step fuel m l p q pos e = ground arith

pub insert-stop :
    (fuel : ℕ) (m : Procs) (l p : ℕ)
    → (m l).next ≡ 0
    → insert_loop (suc fuel) m l p ≡ some (set_next m l p)
unfolding insert_loop
insert-stop fuel m l p e = ground arith

insert-Relinked :
    (fuel : ℕ) (m : Procs) (l p : ℕ) (ls : List ℕ)
    → length ls < fuel
    → 0 < l
    → 0 < p
    → Linked (next_of m) (m l).next ls
    → IsDistinct (l ∷ ls)
    → Without p (l ∷ ls)
    → (m p).next ≡ 0
    → (m' : Procs) × (insert_loop fuel m l p ≡ some m')
      × Relinked m m' l p (l ∷ ls) (l ∷ ls ++ p ∷ [])
unfolding Linked Without IsDistinct
insert-Relinked zero m l p ls h pos pp c d w e = absurd (omega arith)
insert-Relinked (suc f) m l p [] h pos pp c d w e =
    (set_next m l p, insert-stop f m l p c, insert-last m l p pos pp w.0 e)
insert-Relinked (suc f) m l p (q ∷ qs) h pos pp c d w e =
    let (m', run, r) = insert-Relinked f m q p qs (omega arith) c.1 pp c.2 d.1 w.1 e in
    let link = r.outside l (λ z. w.0 (sym z)) d.0 in
    (
      m',
      insert-step f m l p q c.1 c.0 ∙ run,
      record {
        linked = (refl, pos, (link ∙ c.0, c.1, r.linked.2));
        outside = λ a n v. r.outside a n v.1;
        same = r.same;
      },
    )

-- The processes of `qs`, each once, are the list that the scheduler has.
pub record IsList (s : Sched) (qs : List ℕ) : Type 0 where
  pub linked : Linked (next_of s.procs) s.process_list qs
  pub distinct : IsDistinct qs

pub Without-append : (a : ℕ) (qs : List ℕ) (p : ℕ) → a ≢ p → Without a qs → Without a (qs ++ p ∷ [])
unfolding Without
Without-append a [] p ne w = (ne, tt)
Without-append a (q ∷ qs) p ne w = (w.0, Without-append a qs p ne w.1)

pub append-IsDistinct :
    (qs : List ℕ) (p : ℕ) → IsDistinct qs → Without p qs → IsDistinct (qs ++ p ∷ [])
unfolding IsDistinct Without
append-IsDistinct [] p d w = (tt, tt)
append-IsDistinct (q ∷ qs) p d w =
    (Without-append q qs p (λ e. w.0 (sym e)) d.0, append-IsDistinct qs p d.1 w.1)

pub insert-run :
    {m : Procs} (fuel p : ℕ) (s : Sched)
    → insert_loop fuel s.procs s.process_list p ≡ some m
    → insert_process fuel p s ≡ some (record s { procs = m })
unfolding insert_process
insert-run {m} fuel p s e = rw (e, insert_process) refl

-- `insert_process` returns, and puts a process that is not in the list at its end. It changes
-- nothing but links. As many rounds as there are processes are enough.
pub insert_process-IsList :
    (fuel p q : ℕ) (s : Sched) (qs : List ℕ)
    → length (q ∷ qs) ≤ fuel
    → IsList s (q ∷ qs)
    → Without p (q ∷ qs)
    → 0 < p
    → (s.procs p).next ≡ 0
    → (m : Procs) × (insert_process fuel p s ≡ some (record s { procs = m }))
      × IsList (record s { procs = m }) (q ∷ qs ++ p ∷ [])
      × ((a : ℕ) → unlinked (m a) ≡ unlinked (s.procs a))
unfolding insert_process Linked
insert_process-IsList fuel p q s qs h l w pos e =
    let (at, qpos, c) = l.linked in
    let (m, run, r) = insert-Relinked fuel s.procs q p qs (omega arith) qpos pos c l.distinct w e in
    (
      m,
      insert-run fuel p s (ap (λ a. insert_loop fuel s.procs a p) at ∙ run),
      record {
        linked = (at, r.linked.1, r.linked.2);
        distinct = append-IsDistinct (q ∷ qs) p l.distinct w;
      },
      r.same,
    )
