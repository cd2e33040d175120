-- ===== src/Sched/Lookup.antt =====
-- `get_proc_from_pid` of src/sched.c.
use bayos_kernel.Sched.{next_of, Procs, Sched, get_loop, get_proc_from_pid}
use bayos_kernel.Sched.Chains.{Linked}
use bayos_kernel.Sched.ProcessList.{IsList}
use bayos_kernel.Common.{
  ℕ, zero, suc, ◌<◌, ◌≡◌, refl, ◌⊎◌, inl, inr, ◌≢◌, some, List, [], ◌∷◌, length, arith, Bool-cases,
  ◌==◌, ==_iff, ◌∙◌, ap,
}

unfoldable pub Listed : ℕ → List ℕ → Type 0
Listed a [] = ⊥
Listed a (q ∷ qs) = (a ≡ q) ⊎ Listed a qs

-- no process of the list has the number
unfoldable pub HasNone : Procs → ℕ → List ℕ → Type 0
HasNone m pid [] = Unit
HasNone m pid (q ∷ qs) = ((m q).pid ≢ pid) × HasNone m pid qs

-- A process of the list with the number, or `NULL` if there is none.
unfoldable pub Answer : Procs → ℕ → List ℕ → ℕ → Type 0
Answer m pid qs r = ((r ≡ 0) × HasNone m pid qs) ⊎ (Listed r qs × ((m r).pid ≡ pid))

get-end : (fuel : ℕ) (m : Procs) (p pid : ℕ) → p ≡ 0 → get_loop (suc fuel) m p pid ≡ some 0
unfolding get_loop
get-end fuel m p pid e = ground arith

get-hit :
    (fuel : ℕ) (m : Procs) (p pid : ℕ)
    → 0 < p
    → (m p).pid ≡ pid
    → get_loop (suc fuel) m p pid ≡ some p
unfolding get_loop
get-hit fuel m p pid pos e = ground arith

get-miss :
    (fuel : ℕ) (m : Procs) (p pid : ℕ)
    → 0 < p
    → (m p).pid ≢ pid
    → get_loop (suc fuel) m p pid ≡ get_loop fuel m (m p).next pid
unfolding get_loop
get-miss fuel m p pid pos ne = ground arith

get-Answer :
    (fuel : ℕ) (m : Procs) (p pid : ℕ) (qs : List ℕ)
    → length qs < fuel
    → Linked (next_of m) p qs
    → (r : ℕ) × (get_loop fuel m p pid ≡ some r) × Answer m pid qs r
unfolding Linked Answer HasNone Listed
get-Answer zero m p pid qs h c = absurd (omega arith)
get-Answer (suc f) m p pid [] h c = (0, get-end f m p pid c, inl (refl, tt))
get-Answer (suc f) m p pid (q ∷ qs) h (at, pos, c) = elim (Bool-cases ((m q).pid == pid)) [
  | inl hit ↦
      let e = (==_iff (m q).pid pid).0 hit in
      (q, ap (λ a. get_loop (suc f) m a pid) at ∙ get-hit f m q pid pos e, inr (inl refl, e))
  | inr miss ↦
      let other : (m q).pid ≢ pid = ground (arith, miss) in
      let (r, run, answer) = get-Answer f m (m q).next pid qs (omega arith) c in
      (
        r,
        ap (λ a. get_loop (suc f) m a pid) at ∙ get-miss f m q pid pos other ∙ run,
        elim answer [
          | inl (z, rest) ↦ inl (z, (other, rest))
          | inr (there, e) ↦ inr (inr there, e)
        ],
      )
]

-- `get_proc_from_pid` returns, with one round more than there are processes: a process of the list
-- with the number, or `NULL` if no process of the list has it.
pub get_proc_from_pid-Answer :
    (fuel pid : ℕ) (s : Sched) (qs : List ℕ)
    → length qs < fuel
    → IsList s qs
    → (r : ℕ) × (get_proc_from_pid fuel pid s ≡ some r) × Answer s.procs pid qs r
unfolding get_proc_from_pid
get_proc_from_pid-Answer fuel pid s qs h l =
    get-Answer fuel s.procs s.process_list pid qs h l.linked
