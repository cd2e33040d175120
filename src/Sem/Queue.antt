-- ===== src/Sem/Queue.antt =====
-- The queue of a semaphore of src/sem.c: its links, its tail and its processes.
use bayos_kernel.Sched.{ProcessStatus, Procs}
use bayos_kernel.Sched.Chains.{Linked, Without, IsDistinct}
use bayos_kernel.Common.{ℕ, ◌<◌, ◌≡◌, refl, sym, ◌∙◌, ◌≢◌, List, [], ◌∷◌, ◌++◌}

abbrev pub wait_of : Procs → ℕ → ℕ
wait_of m a = (m a).wait_next

-- the last address, and `NULL` if there is none
unfoldable pub last_of : List ℕ → ℕ
last_of [] = 0
last_of (q ∷ []) = q
last_of (q ∷ r ∷ rs) = last_of (r ∷ rs)

unfoldable pub AllBlocked : Procs → List ℕ → Type 0
AllBlocked m [] = Unit
AllBlocked m (q ∷ qs) = ((m q).status ≡ ProcessStatus.blocked) × AllBlocked m qs

pub Without-last : (a q : ℕ) (qs : List ℕ) → Without a (q ∷ qs) → a ≢ last_of (q ∷ qs)
unfolding Without last_of
Without-last a q [] w = w.0
Without-last a q (r ∷ rs) w = Without-last a r rs w.1

-- A link written behind the last address, to one that has none.
pub Linked-append :
    (next next' : ℕ → ℕ) (h q : ℕ) (qs : List ℕ) (p : ℕ)
    → Linked next h (q ∷ qs)
    → IsDistinct (q ∷ qs)
    → Without p (q ∷ qs)
    → 0 < p
    → ((a : ℕ) → a ≢ last_of (q ∷ qs) → a ≢ p → next' a ≡ next a)
    → next' (last_of (q ∷ qs)) ≡ p
    → next' p ≡ 0
    → Linked next' h (q ∷ qs ++ p ∷ [])
unfolding Linked IsDistinct Without last_of
Linked-append next next' h q [] p c d w pos same at end = (c.0, c.1, (at, pos, end))
Linked-append next next' h q (r ∷ rs) p c d w pos same at end =
    let rest = Linked-append next next' (next q) r rs p c.2 d.1 w.1 pos same at end in
    let kept = same q (Without-last q r rs d.0) (λ e. w.0 (sym e)) in
    (c.0, c.1, (kept ∙ rest.0, rest.1, rest.2))

pub last_of-append : (qs : List ℕ) (p : ℕ) → last_of (qs ++ p ∷ []) ≡ p
unfolding last_of
last_of-append [] p = refl
last_of-append (q ∷ []) p = refl
last_of-append (q ∷ r ∷ rs) p = last_of-append (r ∷ rs) p

pub AllBlocked-kept :
    (m m' : Procs) (qs : List ℕ)
    → ((a : ℕ) → (m a).status ≡ ProcessStatus.blocked → (m' a).status ≡ ProcessStatus.blocked)
    → AllBlocked m qs
    → AllBlocked m' qs
unfolding AllBlocked
AllBlocked-kept m m' [] kept b = tt
AllBlocked-kept m m' (q ∷ qs) kept b = (kept q b.0, AllBlocked-kept m m' qs kept b.1)

pub AllBlocked-append :
    (m : Procs) (qs : List ℕ) (p : ℕ)
    → AllBlocked m qs
    → (m p).status ≡ ProcessStatus.blocked
    → AllBlocked m (qs ++ p ∷ [])
unfolding AllBlocked
AllBlocked-append m [] p b e = (e, tt)
AllBlocked-append m (q ∷ qs) p b e = (b.0, AllBlocked-append m qs p b.1 e)

-- writes to one process outside of the queue
pub AllBlocked-outside :
    (m m' : Procs) (b : ℕ) (qs : List ℕ)
    → Without b qs
    → ((a : ℕ) → a ≢ b → (m' a).status ≡ (m a).status)
    → AllBlocked m qs
    → AllBlocked m' qs
unfolding AllBlocked Without
AllBlocked-outside m m' b [] w same k = tt
AllBlocked-outside m m' b (q ∷ qs) w same k =
    (same q (λ e. w.0 (sym e)) ∙ k.0, AllBlocked-outside m m' b qs w.1 same k.1)
