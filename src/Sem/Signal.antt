-- ===== src/Sem/Signal.antt =====
-- `sem_signal` and `sem_trywait` of src/sem.c.
use bayos_kernel.Sem.{sem_create}
use bayos_kernel.Sem.{sem_wait}
use bayos_kernel.Common.{inl}
use bayos_kernel.Common.{inr}
use bayos_kernel.Common.{◌⊎◌}
use bayos_kernel.Sched.{ProcessStatus, Procs, set_status}
use bayos_kernel.Sched.Chains.{Linked, Linked-outside, IsDistinct}
use bayos_kernel.Sem.{Semaphore, set_wait_next, sem_trywait, wake, sem_signal}
use bayos_kernel.Sem.Queue.{wait_of, last_of, AllBlocked, AllBlocked-outside}
use bayos_kernel.Sem.Refines.{tally, Spent, IsSemaphore, give_token}
use bayos_kernel.Common.{
  ℕ, zero, suc, ◌<◌, ◌≡◌, refl, ap, ◌∙◌, ◌≢◌, true, false, List, [], ◌∷◌, length, arith, ℤ, pos,
  negsuc, sucℤ, is_positive, ◌==◌, if◌then◌else◌,
}

-- Who becomes runnable: the first process of the queue, and no other.
unfoldable pub Woken : Procs → Procs → List ℕ → Type 0
Woken m m' [] = (a : ℕ) → (m' a).status ≡ (m a).status
Woken m m' (q ∷ qs) =
    ((m' q).status ≡ ProcessStatus.ready) × ((a : ℕ) → a ≢ q → (m' a).status ≡ (m a).status)

-- the process that is woken
wakes : Procs → ℕ → Procs
wakes m q = set_status (set_wait_next m q 0) q ProcessStatus.ready

wakes-status : (m : Procs) (q : ℕ) → (wakes m q q).status ≡ ProcessStatus.ready
unfolding wakes set_status set_wait_next
wakes-status m q = ground arith

wakes-other :
    (m : Procs) (q a : ℕ)
    → a ≢ q
    → ((wakes m q a).status ≡ (m a).status) × ((wakes m q a).wait_next ≡ (m a).wait_next)
unfolding wakes set_status set_wait_next
wakes-other m q a ne = ground arith

signal-spare :
    (s : Semaphore) (m : Procs) (n : ℕ)
    → s.count ≡ pos n
    → sem_signal s m ≡ (record s { count = pos (suc n) }, m)
unfolding sem_signal
signal-spare s m n e = rw (e, sem_signal) refl

signal-wake :
    (s : Semaphore) (m : Procs) (q : ℕ) (z : ℤ)
    → sucℤ s.count ≡ z
    → is_positive z ≡ false
    → 0 < q
    → s.wait_head ≡ q
    → sem_signal s m ≡ wake (record s { count = z; wait_head = q }) m
unfolding sem_signal
signal-wake s m q z e f h at = rw (e, f, at, sem_signal) ground arith

tally-suc : (qs : List ℕ) → sucℤ (negsuc (length qs)) ≡ tally 0 qs
unfolding tally
tally-suc [] = refl
tally-suc (q ∷ qs) = refl

tally-not_positive : (qs : List ℕ) → is_positive (tally 0 qs) ≡ false
unfolding tally
tally-not_positive [] = refl
tally-not_positive (q ∷ qs) = refl

-- the tail of what is left of the queue
tail-left :
    (next : ℕ → ℕ) (h q t : ℕ) (qs : List ℕ)
    → Linked next h (q ∷ qs)
    → t ≡ last_of (q ∷ qs)
    → (if next q == 0 then 0 else t) ≡ last_of qs
unfolding Linked last_of
tail-left next h q t [] c e = ground (arith, c.2)
tail-left next h q t (r ∷ rs) c e = ground (arith, c.2.0, c.2.1)

Spent-zero : (qs : List ℕ) → Spent 0 qs
unfolding Spent
Spent-zero [] = tt
Spent-zero (q ∷ qs) = refl

wake-IsSemaphore :
    (s : Semaphore) (m : Procs) (q : ℕ) (qs : List ℕ)
    → IsSemaphore s m 0 (q ∷ qs)
    → let (s', m') = wake (record s { count = tally 0 qs; wait_head = q }) m in
      IsSemaphore s' m' 0 qs × Woken m m' (q ∷ qs)
unfolding wake Linked IsDistinct AllBlocked Woken wakes
wake-IsSemaphore s m q qs is = (
  record {
    count = refl;
    spent = Spent-zero qs;
    linked =
        Linked-outside (wait_of m) (wait_of (wakes m q)) (m q).wait_next qs q is.distinct.0
          (λ a ne. (wakes-other m q a ne).1) is.linked.2;
    tail = tail-left (wait_of m) s.wait_head q s.wait_tail qs is.linked is.tail;
    distinct = is.distinct.1;
    blocked =
        AllBlocked-outside m (wakes m q) q qs is.distinct.0 (λ a ne. (wakes-other m q a ne).0)
          is.blocked.1;
  },
  (wakes-status m q, λ a ne. (wakes-other m q a ne).0),
)

-- `sem_signal` wakes the process that has waited longest, and no other, and hands the token to it.
-- If none waits, it adds a token.
pub sem_signal-Woken :
    (s : Semaphore) (m : Procs) (n : ℕ) (qs : List ℕ)
    → IsSemaphore s m n qs
    → let (s', m') = sem_signal s m in
      IsSemaphore s' m' (give_token n qs).0 (give_token n qs).1 × Woken m m' qs
unfolding tally Spent give_token Linked
sem_signal-Woken s m n [] is = rw (signal-spare s m n is.count) (
  record {
    count = refl;
    spent = tt;
    linked = is.linked;
    tail = is.tail;
    distinct = is.distinct;
    blocked = is.blocked;
  },
  unfold Woken in λ a. refl,
)
sem_signal-Woken s m n (q ∷ qs) is =
    let run =
      signal-wake s m q (tally 0 qs) (ap sucℤ is.count ∙ tally-suc qs) (tally-not_positive qs)
        is.linked.1 is.linked.0 in
    rw (run, is.spent) (wake-IsSemaphore s m q qs (rw is.spent at is))

pub trywait-take :
    (s : Semaphore) (k : ℕ)
    → s.count ≡ pos (suc k)
    → sem_trywait s ≡ (true, record s { count = pos k })
unfolding sem_trywait
trywait-take s k e = rw (e, sem_trywait) refl

pub trywait-fail : (s : Semaphore) → is_positive s.count ≡ false → sem_trywait s ≡ (false, s)
unfolding sem_trywait
trywait-fail s e = rw (e, sem_trywait) refl

-- `sem_trywait` takes a token exactly if there is one, and never waits.
pub sem_trywait_lem :
    (s : Semaphore) (m : Procs) (n : ℕ) (qs : List ℕ)
    → IsSemaphore s m n qs
    → let (got, s') = sem_trywait s in
      ((got ≡ true) × (k : ℕ) × (n ≡ suc k) × IsSemaphore s' m k qs)
      ⊎ ((got ≡ false) × (n ≡ 0) × (s' ≡ s))
unfolding tally Spent
sem_trywait_lem s m zero [] is =
    rw (trywait-fail s (ap is_positive is.count)) (inr (refl, refl, refl))
sem_trywait_lem s m (suc k) [] is =
    let left : IsSemaphore (record s { count = pos k }) m k [] = record {
      count = refl;
      spent = tt;
      linked = is.linked;
      tail = is.tail;
      distinct = is.distinct;
      blocked = is.blocked;
    } in
    rw (trywait-take s k is.count) (inl (refl, k, refl, left))
sem_trywait_lem s m zero (q ∷ qs) is =
    rw (trywait-fail s (ap is_positive is.count)) (inr (refl, refl, refl))
sem_trywait_lem s m (suc k) (q ∷ qs) is = absurd (ground (arith, is.spent))

-- A free mutex is taken and given back with nothing else changed.
pub free_lock :
    (c : ℕ) (m : Procs)
    → (sem_wait (sem_create (pos 1)) c m ≡ (sem_create (pos 0), m))
      × (sem_signal (sem_create (pos 0)) m ≡ (sem_create (pos 1), m))
unfolding sem_wait sem_signal sem_create
free_lock c m = (refl, refl)

-- A process that runs goes on running.
pub sem_signal-runs :
    (s : Semaphore) (m : Procs) (c : ℕ)
    → (m c).status ≢ ProcessStatus.blocked
    → ((sem_signal s m).1 c).status ≢ ProcessStatus.blocked
unfolding sem_signal wake set_status set_wait_next
sem_signal-runs s m c ne = ground (arith, ne)
