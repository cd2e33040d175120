-- ===== src/Sched/Rounds.antt =====
-- Rounds of the loop of `schedule` in src/sched.c, and the first runnable process of a list.
use bayos_kernel.Sched.{next_of}
use bayos_kernel.Sched.{Procs, is_idle, schedule_loop}
use bayos_kernel.Sched.Chains.{Linked}
use bayos_kernel.Common.{
  if◌then◌else◌, ℕ, zero, suc, ◌+◌, ◌≤◌, ◌<◌, ◌≡◌, refl, sym, ap, ◌∙◌, inl, inr, true, false,
  Option, none, some, List, [], ◌∷◌, ◌++◌, length, arith, Bool-cases,
}

-- The first process of a list that is neither dead nor blocked.
unfoldable pub first_runnable : Procs → List ℕ → Option ℕ
first_runnable m [] = none
first_runnable m (q ∷ qs) = if is_idle (m q).status then first_runnable m qs else some q

-- The loop, entered at the process that a round comes to.
pub visit : ℕ → Procs → (process_list q : ℕ) → Option ℕ
visit fuel m list q = if is_idle (m q).status then schedule_loop fuel m list q else some q

loop-next :
    (fuel : ℕ) (m : Procs) (list current q : ℕ)
    → 0 < q
    → (m current).next ≡ q
    → schedule_loop (suc fuel) m list current ≡ visit fuel m list q
unfolding schedule_loop visit
loop-next fuel m list current q pos e = ground arith

-- behind the last process the loop goes on at the head
pub loop-wrap :
    (fuel : ℕ) (m : Procs) (list current : ℕ)
    → 0 < list
    → (m current).next ≡ 0
    → schedule_loop (suc fuel) m list current ≡ visit fuel m list list
unfolding schedule_loop visit
loop-wrap fuel m list current pos e = ground arith

visit-idle :
    (fuel : ℕ) (m : Procs) (list q : ℕ)
    → is_idle (m q).status ≡ true
    → visit fuel m list q ≡ schedule_loop fuel m list q
unfolding visit
visit-idle fuel m list q e = ground arith

visit-stop :
    (fuel : ℕ) (m : Procs) (list q : ℕ)
    → is_idle (m q).status ≡ false
    → visit fuel m list q ≡ some q
unfolding visit
visit-stop fuel m list q e = ground arith

pub first-idle :
    (m : Procs) (q : ℕ) (qs : List ℕ)
    → is_idle (m q).status ≡ true
    → first_runnable m (q ∷ qs) ≡ first_runnable m qs
unfolding first_runnable
first-idle m q qs e = ground arith

pub first-stop :
    (m : Procs) (q : ℕ) (qs : List ℕ)
    → is_idle (m q).status ≡ false
    → first_runnable m (q ∷ qs) ≡ some q
unfolding first_runnable
first-stop m q qs e = ground arith

first-idle_none :
    (m : Procs) (q : ℕ) (qs : List ℕ)
    → first_runnable m (q ∷ qs) ≡ none
    → is_idle (m q).status ≡ true
unfolding first_runnable
first-idle_none m q qs e = ground arith

pub no_first : {q : ℕ} (m : Procs) → first_runnable m [] ≡ some q → ⊥
unfolding first_runnable
no_first m e = ground arith

-- The loop stops at the first runnable process ahead of it.
pub loop-found :
    {q : ℕ} (fuel : ℕ) (m : Procs) (list current : ℕ) (qs : List ℕ)
    → length qs ≤ fuel
    → Linked (next_of m) (m current).next qs
    → first_runnable m qs ≡ some q
    → schedule_loop fuel m list current ≡ some q
unfolding Linked
loop-found fuel m list current [] h c e = absurd (no_first m e)
loop-found zero m list current (r ∷ rs) h c e = absurd (omega arith)
loop-found (suc f) m list current (r ∷ rs) h (at, pos, c) e =
    loop-next f m list current r pos at ∙ elim (Bool-cases (is_idle (m r).status)) [
      | inl idle ↦
          visit-idle f m list r idle
          ∙ loop-found f m list r rs (omega arith) c (sym (first-idle m r rs idle) ∙ e)
      | inr stop ↦ visit-stop f m list r stop ∙ sym (first-stop m r rs stop) ∙ e
    ]

-- With none ahead of it, the loop comes to the end of the list.
pub loop-past :
    (total fuel : ℕ) (m : Procs) (list current : ℕ) (qs : List ℕ)
    → total ≡ length qs + fuel
    → Linked (next_of m) (m current).next qs
    → first_runnable m qs ≡ none
    → (last : ℕ) × ((m last).next ≡ 0)
      × (schedule_loop total m list current ≡ schedule_loop fuel m list last)
unfolding Linked
loop-past total fuel m list current [] t c e =
    (current, c, ap (λ f. schedule_loop f m list current) (t ∙ omega arith))
loop-past zero fuel m list current (r ∷ rs) t c e = absurd (omega arith)
loop-past (suc total) fuel m list current (r ∷ rs) t (at, pos, c) e =
    let idle = first-idle_none m r rs e in
    let (last, end, run) =
      loop-past total fuel m list r rs (omega arith) c (sym (first-idle m r rs idle) ∙ e) in
    (last, end, loop-next total m list current r pos at ∙ visit-idle total m list r idle ∙ run)

pub visit-found :
    {q : ℕ} (fuel : ℕ) (m : Procs) (list p : ℕ) (qs : List ℕ)
    → length qs ≤ suc fuel
    → Linked (next_of m) p qs
    → first_runnable m qs ≡ some q
    → visit fuel m list p ≡ some q
unfolding Linked
visit-found fuel m list p [] h c e = absurd (no_first m e)
visit-found fuel m list p (r ∷ rs) h (at, pos, c) e =
    rw at (elim (Bool-cases (is_idle (m r).status)) [
      | inl idle ↦
          visit-idle fuel m list r idle
          ∙ loop-found fuel m list r rs (omega arith) c (sym (first-idle m r rs idle) ∙ e)
      | inr stop ↦ visit-stop fuel m list r stop ∙ sym (first-stop m r rs stop) ∙ e
    ])

-- Behind processes none of which is runnable.
pub first-append_none :
    (m : Procs) (qs rs : List ℕ)
    → first_runnable m qs ≡ none
    → first_runnable m (qs ++ rs) ≡ first_runnable m rs
first-append_none m [] rs e = refl
first-append_none m (q ∷ qs) rs e =
    let idle = first-idle_none m q qs e in
    first-idle m q (qs ++ rs) idle ∙ first-append_none m qs rs (sym (first-idle m q qs idle) ∙ e)

pub first-append_some :
    {p : ℕ} (m : Procs) (qs rs : List ℕ)
    → first_runnable m qs ≡ some p
    → first_runnable m (qs ++ rs) ≡ some p
first-append_some m [] rs e = absurd (no_first m e)
first-append_some m (q ∷ qs) rs e = elim (Bool-cases (is_idle (m q).status)) [
  | inl idle ↦
      first-idle m q (qs ++ rs) idle ∙ first-append_some m qs rs (sym (first-idle m q qs idle) ∙ e)
  | inr stop ↦ first-stop m q (qs ++ rs) stop ∙ sym (first-stop m q qs stop) ∙ e
]

-- Two lists that find the same behind the same list.
pub first-append_same :
    (m : Procs) (qs rs ts : List ℕ)
    → first_runnable m rs ≡ first_runnable m ts
    → first_runnable m (qs ++ rs) ≡ first_runnable m (qs ++ ts)
first-append_same m [] rs ts e = e
first-append_same m (q ∷ qs) rs ts e = elim (Bool-cases (is_idle (m q).status)) [
  | inl idle ↦
      first-idle m q (qs ++ rs) idle
      ∙ first-append_same m qs rs ts e
      ∙ sym (first-idle m q (qs ++ ts) idle)
  | inr stop ↦ first-stop m q (qs ++ rs) stop ∙ sym (first-stop m q (qs ++ ts) stop)
]

pub first-drop_none :
    (m : Procs) (q : ℕ) (qs : List ℕ)
    → first_runnable m qs ≡ none
    → first_runnable m (q ∷ qs) ≡ first_runnable m (q ∷ [])
first-drop_none m q qs e = elim (Bool-cases (is_idle (m q).status)) [
  | inl idle ↦ first-idle m q qs idle ∙ e ∙ unfold first_runnable in sym (first-idle m q [] idle)
  | inr stop ↦ first-stop m q qs stop ∙ sym (first-stop m q [] stop)
]
