-- ===== src/Sem/Frame.antt =====
-- What the operations of src/sem.c leave alone: the processes outside of the queue, and so the
-- other semaphores.
use bayos_kernel.Sched.{Procs, set_status}
use bayos_kernel.Sched.Chains.{Linked, Linked-at, Without}
use bayos_kernel.Sem.{Semaphore, set_wait_next, enqueue, sem_wait, wake, sem_signal}
use bayos_kernel.Sem.Queue.{wait_of, last_of, AllBlocked}
use bayos_kernel.Sem.Refines.{IsSemaphore}
use bayos_kernel.Common.{ℕ, ◌≡◌, refl, sym, ap, ◌∙◌, ◌≢◌, ◌⊎◌, inl, inr, List, [], ◌∷◌, arith}

pub sem_wait-outside :
    (s : Semaphore) (p : ℕ) (m : Procs) (a : ℕ)
    → a ≢ p
    → a ≢ s.wait_tail
    → (sem_wait s p m).1 a ≡ m a
unfolding sem_wait enqueue set_wait_next set_status
sem_wait-outside s p m a ne nt = ground (arith, ne, nt)

pub sem_signal-outside :
    (s : Semaphore) (m : Procs) (a : ℕ) → a ≢ s.wait_head → (sem_signal s m).1 a ≡ m a
unfolding sem_signal wake set_wait_next set_status
sem_signal-outside s m a ne = ground (arith, ne)

-- The processes of a queue keep their status and their link.
unfoldable pub Kept : Procs → Procs → List ℕ → Type 0
Kept m m' [] = Unit
Kept m m' (q ∷ qs) =
    ((m' q).status ≡ (m q).status) × ((m' q).wait_next ≡ (m q).wait_next) × Kept m m' qs

Linked-Kept :
    (m m' : Procs) (p : ℕ) (qs : List ℕ)
    → Kept m m' qs
    → Linked (wait_of m) p qs
    → Linked (wait_of m') p qs
unfolding Linked Kept
Linked-Kept m m' p [] l c = c
Linked-Kept m m' p (q ∷ qs) l c =
    (c.0, c.1, Linked-at (wait_of m') qs l.1 (Linked-Kept m m' (m q).wait_next qs l.2 c.2))

AllBlocked-Kept : (m m' : Procs) (qs : List ℕ) → Kept m m' qs → AllBlocked m qs → AllBlocked m' qs
unfolding AllBlocked Kept
AllBlocked-Kept m m' [] l b = tt
AllBlocked-Kept m m' (q ∷ qs) l b = (l.0 ∙ b.0, AllBlocked-Kept m m' qs l.2 b.1)

pub IsSemaphore-Kept :
    (s : Semaphore) (m m' : Procs) (n : ℕ) (qs : List ℕ)
    → Kept m m' qs
    → IsSemaphore s m n qs
    → IsSemaphore s m' n qs
IsSemaphore-Kept s m m' n qs l is = record {
  count = is.count;
  spent = is.spent;
  linked = Linked-Kept m m' s.wait_head qs l is.linked;
  tail = is.tail;
  distinct = is.distinct;
  blocked = AllBlocked-Kept m m' qs l is.blocked;
}

outside-Kept :
    (m m' : Procs) (b c : ℕ) (qs : List ℕ)
    → Without b qs
    → Without c qs
    → ((a : ℕ) → a ≢ b → a ≢ c → m' a ≡ m a)
    → Kept m m' qs
unfolding Kept Without
outside-Kept m m' b c [] w v same = tt
outside-Kept m m' b c (q ∷ qs) w v same =
    let e = same q (λ e. w.0 (sym e)) (λ e. v.0 (sym e)) in
    (ap (λ r. r.status) e, ap (λ r. r.wait_next) e, outside-Kept m m' b c qs w.1 v.1 same)

-- No process waits in both queues.
unfoldable pub Disjoint : List ℕ → List ℕ → Type 0
Disjoint qs rs = (a : ℕ) → Without a qs ⊎ Without a rs

Linked-Without_zero : (next : ℕ → ℕ) (p : ℕ) (qs : List ℕ) → Linked next p qs → Without 0 qs
unfolding Linked Without
Linked-Without_zero next p [] c = tt
Linked-Without_zero next p (q ∷ qs) c =
    (omega (arith, c.1), Linked-Without_zero next (next q) qs c.2)

last-not_Without : (q : ℕ) (qs : List ℕ) → Without (last_of (q ∷ qs)) (q ∷ qs) → ⊥
unfolding Without last_of
last-not_Without q [] w = w.0 refl
last-not_Without q (r ∷ rs) w = last-not_Without r rs w.1

-- the tail of one queue is not in the other
tail-Without : (qs rs : List ℕ) → Disjoint qs rs → Without 0 rs → Without (last_of qs) rs
unfolding Disjoint last_of
tail-Without [] rs d z = z
tail-Without (q ∷ qs) rs d z = elim (d (last_of (q ∷ qs))) [
  | inl w ↦ absurd (last-not_Without q qs w)
  | inr w ↦ w
]

head-Without :
    (next : ℕ → ℕ) (p : ℕ) (qs rs : List ℕ)
    → Linked next p qs
    → Disjoint qs rs
    → Without 0 rs
    → Without p rs
unfolding Disjoint Linked Without
head-Without next p [] rs c d z = rw c z
head-Without next p (q ∷ qs) rs c d z = elim (d p) [ inl w ↦ absurd (w.0 c.0) | inr w ↦ w ]

-- A semaphore with a queue of its own is none the worse for `sem_wait` and `sem_signal` of another.
pub sem_wait-beside :
    (s t : Semaphore) (p : ℕ) (m : Procs) (n k : ℕ) (qs rs : List ℕ)
    → IsSemaphore s m n qs
    → IsSemaphore t m k rs
    → Disjoint qs rs
    → Without p rs
    → IsSemaphore t (sem_wait s p m).1 k rs
sem_wait-beside s t p m n k qs rs a b d w =
    let z = Linked-Without_zero (wait_of m) t.wait_head rs b.linked in
    IsSemaphore-Kept t m (sem_wait s p m).1 k rs
      (outside-Kept m (sem_wait s p m).1 p s.wait_tail rs w (rw a.tail (tail-Without qs rs d z))
        (sem_wait-outside s p m))
      b

pub sem_signal-beside :
    (s t : Semaphore) (m : Procs) (n k : ℕ) (qs rs : List ℕ)
    → IsSemaphore s m n qs
    → IsSemaphore t m k rs
    → Disjoint qs rs
    → IsSemaphore t (sem_signal s m).1 k rs
sem_signal-beside s t m n k qs rs a b d =
    let z = Linked-Without_zero (wait_of m) t.wait_head rs b.linked in
    let h = head-Without (wait_of m) s.wait_head qs rs a.linked d z in
    IsSemaphore-Kept t m (sem_signal s m).1 k rs
      (outside-Kept m (sem_signal s m).1 s.wait_head s.wait_head rs h h
        (λ x ne same. sem_signal-outside s m x ne))
      b
