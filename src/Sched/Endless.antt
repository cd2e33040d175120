-- ===== src/Sched/Endless.antt =====
-- `insert_process` of src/sched.c for a process whose link leads into the list.
use bayos_kernel.Sched.{next_of, Procs, Sched, set_next, insert_loop, insert_process}
use bayos_kernel.Sched.Chains.{Linked, Without}
use bayos_kernel.Sched.Lookup.{Listed}
use bayos_kernel.Sched.ProcessList.{IsList, insert-step, insert-stop, insert-run}
use bayos_kernel.Common.{
  ℕ, zero, suc, ◌≤◌, ◌<◌, ◌≡◌, ◌≢◌, refl, sym, ap, ◌∙◌, none, some, List, [], ◌∷◌, length, arith,
  ◌⊎◌, inl, inr, Bool-cases, ◌==◌, ==_iff,
}

-- The last process of a list.
record Last (fuel : ℕ) (m : Procs) (q p : ℕ) (qs : List ℕ) : Type 0 where
  at : ℕ
  run : insert_loop fuel m q p ≡ some (set_next m at p)
  listed : Listed at (q ∷ qs)
  only : (a : ℕ) → Listed a (q ∷ qs) → (m a).next ≡ 0 → a ≡ at

insert-Last :
    (fuel : ℕ) (m : Procs) (q p : ℕ) (qs : List ℕ)
    → length qs < fuel
    → 0 < q
    → Linked (next_of m) (m q).next qs
    → Last fuel m q p qs
unfolding Linked Listed
insert-Last zero m q p qs h pos c = absurd (omega arith)
insert-Last (suc f) m q p [] h pos c = record {
  at = q;
  run = insert-stop f m q p c;
  listed = inl refl;
  only = λ a l z. elim l [ inl e ↦ e | inr n ↦ absurd n ];
}
insert-Last (suc f) m q p (r ∷ rs) h pos (e, rpos, c) =
    let l = insert-Last f m r p rs (omega arith) rpos c in
    record {
      at = l.at;
      run = insert-step f m q p r rpos e ∙ l.run;
      listed = inr l.listed;
      only = λ a s z. elim s [
        | inl same ↦ absurd (omega (arith, z, rpos, ap (λ x. (m x).next) same ∙ e))
        | inr rest ↦ l.only a rest z
      ];
    }

-- A step from a process of the list, unless it is the last one, leads to a process of the list.
next-Listed :
    (next : ℕ → ℕ) (a start : ℕ) (qs : List ℕ)
    → Linked next start qs
    → Listed a qs
    → next a ≢ 0
    → Listed (next a) qs
unfolding Linked Listed
next-Listed next a start [] c l nz = absurd l
next-Listed next a start (q ∷ []) (e, pos, c) (inl same) nz = absurd (nz (ap next same ∙ c))
next-Listed next a start (q ∷ r ∷ rs) (e, pos, c) (inl same) nz = inr (inl (ap next same ∙ c.0))
next-Listed next a start (q ∷ rs) (e, pos, c) (inr rest) nz =
    inr (next-Listed next a (next q) rs c rest nz)

-- From a process of a set that no link leaves, the loop finds no end.
insert-endless :
    (fuel : ℕ) (m : Procs) (In : ℕ → Type 0) (q p : ℕ)
    → ((a : ℕ) → In a → ((m a).next ≢ 0) × In (m a).next)
    → In q
    → insert_loop fuel m q p ≡ none
insert-endless zero m In q p closed i = unfold insert_loop in refl
insert-endless (suc f) m In q p closed i =
    let (nz, next) = closed q i in
    insert-step f m q p (m q).next (omega (arith, nz)) refl
    ∙ insert-endless f m In (m q).next p closed next

Without-Listed : (p a : ℕ) (qs : List ℕ) → Without p qs → Listed a qs → a ≢ p
unfolding Without Listed
Without-Listed p a [] w l = absurd l
Without-Listed p a (q ∷ qs) w (inl e) = λ h. w.0 (sym h ∙ e)
Without-Listed p a (q ∷ qs) w (inr l) = Without-Listed p a qs w.1 l

pub Listed-positive :
    (next : ℕ → ℕ) (a start : ℕ) (qs : List ℕ) → Linked next start qs → Listed a qs → 0 < a
unfolding Linked Listed
Listed-positive next a start [] c l = absurd l
Listed-positive next a start (q ∷ qs) (e, pos, c) (inl same) = omega (arith, same, pos)
Listed-positive next a start (q ∷ qs) (e, pos, c) (inr l) = Listed-positive next a (next q) qs c l

set_next-here : (m : Procs) (l p : ℕ) → (set_next m l p l).next ≡ p
unfolding set_next
set_next-here m l p = ground arith

set_next-other : (m : Procs) (l p a : ℕ) → a ≢ l → (set_next m l p a).next ≡ (m a).next
unfolding set_next
set_next-other m l p a ne = ground (arith, ne)

-- The list and the process, when the last of the list is linked to the process.
Within : (p : ℕ) → List ℕ → ℕ → Type 0
Within p qs a = Listed a qs ⊎ (a ≡ p)

Within-closed :
    (m : Procs) (start p at : ℕ) (qs : List ℕ)
    → Linked (next_of m) start qs
    → Without p qs
    → 0 < p
    → Listed (m p).next qs
    → Listed at qs
    → ((a : ℕ) → Listed a qs → (m a).next ≡ 0 → a ≡ at)
    → (a : ℕ) → Within p qs a
    → ((set_next m at p a).next ≢ 0) × Within p qs (set_next m at p a).next
unfolding Within
Within-closed m start p at qs c w pos back l only a (inl here) = elim (Bool-cases (a == at)) [
  | inl t ↦
      let e = (==_iff a at).0 t in
      let to : (set_next m at p a).next ≡ p = rw e (set_next-here m at p) in
      (λ z. absurd (omega (arith, z, to, pos)), inr to)
  | inr f ↦
      let ne : a ≢ at = ground (arith, f) in
      let to = set_next-other m at p a ne in
      let nz : (m a).next ≢ 0 = λ z. ne (only a here z) in
      (λ z. nz (sym to ∙ z), rw to (inl (next-Listed (next_of m) a start qs c here nz)))
]
Within-closed m start p at qs c w pos back l only a (inr e) =
    let apart : p ≢ at = λ h. Without-Listed p at qs w l (sym h) in
    let to : (set_next m at p a).next ≡ (m p).next = rw e (set_next-other m at p p apart) in
    let nz = Listed-positive (next_of m) (m p).next start qs c back in
    (λ z. absurd (omega (arith, z, to, nz)), rw to (inl back))

insert-none :
    (fuel p : ℕ) (s : Sched)
    → insert_loop fuel s.procs s.process_list p ≡ none
    → insert_process fuel p s ≡ none
unfolding insert_process
insert-none fuel p s e = rw (e, insert_process) refl

-- When `insert_process` gets a process whose link leads into the list, it returns, with as many
-- rounds as there are processes; but then no number of rounds is enough for another call.
pub insert_process-endless :
    (fuel p q : ℕ) (s : Sched) (qs : List ℕ)
    → length (q ∷ qs) ≤ fuel
    → IsList s (q ∷ qs)
    → Without p (q ∷ qs)
    → 0 < p
    → Listed (s.procs p).next (q ∷ qs)
    → (m : Procs) × (insert_process fuel p s ≡ some (record s { procs = m }))
      × ((more x : ℕ) → insert_process more x (record s { procs = m }) ≡ none)
unfolding Linked Within Listed
insert_process-endless fuel p q s qs h l w pos back =
    let (at, qpos, c) = l.linked in
    let z = insert-Last fuel s.procs q p qs (omega arith) qpos c in
    let closed =
      Within-closed s.procs s.process_list p z.at (q ∷ qs) l.linked w pos back z.listed z.only in
    let t : Sched = record s { procs = set_next s.procs z.at p } in
    (
      set_next s.procs z.at p,
      insert-run fuel p s (ap (λ a. insert_loop fuel s.procs a p) at ∙ z.run),
      λ more x.
          insert-none more x t (
            insert-endless more t.procs (Within p (q ∷ qs)) t.process_list x closed (inl (inl at))),
    )
