-- ===== src/Sem/Mutex.antt =====
-- Runs of one semaphore of src/sem.c: a step relation, and mutual exclusion.
use bayos_kernel.Sched.{ProcessStatus, Procs}
use bayos_kernel.Sched.Chains.{Linked, Without, IsDistinct}
use bayos_kernel.Sem.{Semaphore, sem_create, sem_wait, sem_trywait, sem_signal}
use bayos_kernel.Sem.Queue.{last_of, AllBlocked}
use bayos_kernel.Sem.Refines.{
  tally, Spent, IsSemaphore, take_token, give_token, Waited, sem_wait-Waited,
}
use bayos_kernel.Sem.Frame.{Kept, IsSemaphore-Kept}
use bayos_kernel.Sem.Signal.{sem_signal-Woken, sem_trywait_lem}
use bayos_kernel.Common.{
  ℕ, zero, suc, ◌+◌, ◌≤◌, ◌<◌, ◌≡◌, refl, ap, ◌∙◌, ◌≢◌, ◌⊎◌, inl, inr, Bool, true, false, List, [],
  ◌∷◌, ◌++◌, arith, ℤ, pos, is_negative, if◌then◌else◌,
}

-- What other parts of the kernel do, and other semaphores, is any change that keeps the status and
-- the links of the processes that wait for this one.
unfoldable pub Spares : Semaphore → Procs → Procs → Type 0
Spares s m m' = (n : ℕ) (qs : List ℕ) → IsSemaphore s m n qs → Kept m m' qs

-- The states that a semaphore, created with `initial` tokens, comes to, each operation with
-- interrupts off; `held` counts the tokens that processes hold. The caller of `sem_wait` holds one if it
-- goes on; the caller of `sem_signal` gives its own back, or hands it to the process that it wakes.
pub data Reached (initial : ℕ) : Semaphore → Procs → ℕ → Type 0 where
  created : {m : Procs} → Reached initial (sem_create (pos initial)) m 0
  waited :
      {s : Semaphore} {m : Procs} {held : ℕ} (p : ℕ)
      → 0 < p
      → (m p).status ≢ ProcessStatus.blocked
      → Reached initial s m held
      → Reached initial
          (sem_wait s p m).0
          (sem_wait s p m).1
          (if is_negative (sem_wait s p m).0.count then held else suc held)
  tried :
      {s : Semaphore} {m : Procs} {held : ℕ}
      → Reached initial s m held
      → Reached initial (sem_trywait s).1 m (if (sem_trywait s).0 then suc held else held)
  signalled :
      {s : Semaphore} {m : Procs} {held : ℕ}
      → Reached initial s m (suc held)
      → Reached initial
          (sem_signal s m).0
          (sem_signal s m).1
          (if is_negative s.count then suc held else held)
  ran :
      {s : Semaphore} {m : Procs} {held : ℕ} (m' : Procs)
      → Spares s m m'
      → Reached initial s m held
      → Reached initial s m' held

-- Every token is held or left, and a process waits only while none is left.
pub record Balanced (initial : ℕ) (s : Semaphore) (m : Procs) (held : ℕ) : Type 0 where
  pub left : ℕ
  pub queue : List ℕ
  pub is : IsSemaphore s m left queue
  pub sum : left + held ≡ initial

pub runs-Without :
    (m : Procs) (p : ℕ) (qs : List ℕ)
    → (m p).status ≢ ProcessStatus.blocked
    → AllBlocked m qs
    → Without p qs
unfolding AllBlocked Without
runs-Without m p [] ne b = tt
runs-Without m p (q ∷ qs) ne b =
    (λ e. ne (ap (λ a. (m a).status) e ∙ b.0), runs-Without m p qs ne b.1)

Balanced-Waited :
    {initial : ℕ} (held : ℕ) (s' : Semaphore) (m m' : Procs) (p n : ℕ) (qs : List ℕ)
    → n + held ≡ initial
    → Spent n qs
    → Waited s' m m' p n qs
    → Balanced initial s' m' (if is_negative s'.count then held else suc held)
unfolding take_token tally Spent
Balanced-Waited held s' m m' p zero [] sum sp w = record {
  left = 0;
  queue = p ∷ [];
  is = w.is;
  sum = rw w.is.count sum;
}
Balanced-Waited held s' m m' p zero (q ∷ qs) sum sp w = record {
  left = 0;
  queue = q ∷ qs ++ p ∷ [];
  is = w.is;
  sum = rw w.is.count sum;
}
Balanced-Waited held s' m m' p (suc k) [] sum sp w = record {
  left = k;
  queue = [];
  is = w.is;
  sum = rw w.is.count (omega (arith, sum));
}
Balanced-Waited held s' m m' p (suc k) (q ∷ qs) sum sp w = absurd (omega (arith, sp))

Balanced-Woken :
    {initial : ℕ} (held : ℕ) (c : ℤ) (s' : Semaphore) (m m' : Procs) (n : ℕ) (qs : List ℕ)
    → n + suc held ≡ initial
    → c ≡ tally n qs
    → IsSemaphore s' m' (give_token n qs).0 (give_token n qs).1
    → Balanced initial s' m' (if is_negative c then suc held else held)
unfolding give_token tally
Balanced-Woken held c s' m m' n [] sum e is = record {
  left = suc n;
  queue = [];
  is = is;
  sum = rw e (omega (arith, sum));
}
Balanced-Woken held c s' m m' n (q ∷ qs) sum e is = record {
  left = n;
  queue = qs;
  is = is;
  sum = rw e sum;
}

Balanced-tried :
    {initial held : ℕ} (got : Bool) (s s' : Semaphore) (m : Procs) (b : Balanced initial s m held)
    → ((got ≡ true) × (k : ℕ) × (b.left ≡ suc k) × IsSemaphore s' m k b.queue)
      ⊎ ((got ≡ false) × (b.left ≡ 0) × (s' ≡ s))
    → Balanced initial s' m (if got then suc held else held)
Balanced-tried got s s' m b (inl (t, k, e, is)) = record {
  left = k;
  queue = b.queue;
  is = is;
  sum = rw t (omega (arith, b.sum, e));
}
Balanced-tried got s s' m b (inr (f, e, same)) = record {
  left = b.left;
  queue = b.queue;
  is = rw same b.is;
  sum = rw f b.sum;
}

Balanced-ran :
    {initial held : ℕ} (s : Semaphore) (m m' : Procs)
    → Spares s m m'
    → Balanced initial s m held
    → Balanced initial s m' held
unfolding Spares
Balanced-ran s m m' l b = record {
  left = b.left;
  queue = b.queue;
  is = IsSemaphore-Kept s m m' b.left b.queue (l b.left b.queue b.is) b.is;
  sum = b.sum;
}

created-Balanced : (initial : ℕ) (m : Procs) → Balanced initial (sem_create (pos initial)) m 0
unfolding sem_create tally Spent Linked last_of IsDistinct AllBlocked
created-Balanced initial m = record {
  left = initial;
  queue = [];
  is = record { count = refl; spent = tt; linked = refl; tail = refl; distinct = tt; blocked = tt };
  sum = omega arith;
}

-- Where only a process that holds a token calls `sem_signal`, as with a mutex (the semaphores that count the bytes of a pipe
-- are used in another way): whatever a semaphore goes through from `sem_create` on, each of its tokens is left or
-- held by one process, and processes wait only while none is left. So a mutex, which has one token, is held by one
-- process at most.
pub Reached-Balanced :
    (initial held : ℕ) (s : Semaphore) (m : Procs)
    → Reached initial s m held
    → Balanced initial s m held × held ≤ initial
Reached-Balanced initial held s m r = let b = balanced r in (b, omega (arith, b.sum))
  where
    balanced :
        {s : Semaphore} {m : Procs} {held : ℕ}
        → Reached initial s m held
        → Balanced initial s m held
    balanced (created {m}) = created-Balanced initial m
    balanced (waited {s} {m} {held} p h ne r) =
        let b = balanced r in
        Balanced-Waited held _ m _ p b.left b.queue b.sum b.is.spent
          (sem_wait-Waited s p m b.left b.queue h (runs-Without m p b.queue ne b.is.blocked) b.is)
    balanced (tried {s} {m} r) =
        let b = balanced r in Balanced-tried _ s _ m b (sem_trywait_lem s m b.left b.queue b.is)
    balanced (signalled {s} {m} {held} r) =
        let b = balanced r in
        Balanced-Woken held s.count _ m _ b.left b.queue b.sum b.is.count
          (sem_signal-Woken s m b.left b.queue b.is).0
    balanced (ran {s} {m} m' l r) = Balanced-ran s m m' l (balanced r)
