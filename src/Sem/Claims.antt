-- ===== src/Sem/Claims.antt =====
-- The tokens of a semaphore of src/sem.c that are left and that are held, with its queue.
use bayos_kernel.Sched.{Procs}
use bayos_kernel.Sched.Chains.{Linked, Without, IsDistinct}
use bayos_kernel.Sched.ProcessList.{Without-append}
use bayos_kernel.Sem.{Semaphore, sem_create, sem_wait, sem_trywait, sem_signal}
use bayos_kernel.Sem.Queue.{last_of, AllBlocked}
use bayos_kernel.Sem.Refines.{
  tally, Spent, IsSemaphore, take_token, give_token, Waited, sem_wait-Waited,
}
use bayos_kernel.Sem.Signal.{sem_signal-Woken, sem_trywait_lem}
use bayos_kernel.Sem.Frame.{IsSemaphore-Kept}
use bayos_kernel.Sem.Mutex.{Spares}
use bayos_kernel.Common.{
  ℕ, zero, suc, ◌+◌, ◌<◌, ◌≡◌, refl, ◌≢◌, ◌⊎◌, inl, inr, Bool, true, false, List, [], ◌∷◌, ◌++◌,
  arith, ℤ, pos, is_negative, if◌then◌else◌,
}

pub record Claims (total held : ℕ) (s : Semaphore) (m : Procs) (qs : List ℕ) : Type 0 where
  pub left : ℕ
  pub is : IsSemaphore s m left qs
  pub sum : left + held ≡ total

Claims-Waited :
    {total : ℕ} (held : ℕ) (s' : Semaphore) (m m' : Procs) (c n : ℕ) (qs : List ℕ)
    → n + held ≡ total
    → Spent n qs
    → Waited s' m m' c n qs
    → (qs' : List ℕ) × Claims total (if is_negative s'.count then held else suc held) s' m' qs'
      × ((a : ℕ) → a ≢ c → Without a qs → Without a qs')
unfolding take_token tally Spent Without
Claims-Waited held s' m m' c zero [] sum sp w =
    (c ∷ [], record { left = 0; is = w.is; sum = rw w.is.count sum }, λ a ne v. (ne, tt))
Claims-Waited held s' m m' c zero (q ∷ qs) sum sp w = (
  q ∷ qs ++ c ∷ [],
  record { left = 0; is = w.is; sum = rw w.is.count sum },
  λ a ne v. (v.0, Without-append a qs c ne v.1),
)
Claims-Waited held s' m m' c (suc k) [] sum sp w =
    ([], record { left = k; is = w.is; sum = rw w.is.count (omega (arith, sum)) }, λ a ne v. tt)
Claims-Waited held s' m m' c (suc k) (q ∷ qs) sum sp w = absurd (omega (arith, sp))

-- `sem_wait` of a process that does not wait yet: it holds one token more if it goes on.
pub sem_wait-Claims :
    {total held : ℕ} (s : Semaphore) (m : Procs) (c : ℕ) (qs : List ℕ)
    → 0 < c
    → Without c qs
    → Claims total held s m qs
    → (qs' : List ℕ) × Claims total
        (if is_negative (sem_wait s c m).0.count then held else suc held)
        (sem_wait s c m).0
        (sem_wait s c m).1
        qs'
      × ((a : ℕ) → a ≢ c → Without a qs → Without a qs')
sem_wait-Claims {total} {held} s m c qs h w cl =
    Claims-Waited held (sem_wait s c m).0 m (sem_wait s c m).1 c cl.left qs cl.sum cl.is.spent
      (sem_wait-Waited s c m cl.left qs h w cl.is)

Claims-Woken :
    {total : ℕ} (held : ℕ) (z : ℤ) (s' : Semaphore) (m' : Procs) (n : ℕ) (qs : List ℕ)
    → n + suc held ≡ total
    → z ≡ tally n qs
    → IsSemaphore s' m' (give_token n qs).0 (give_token n qs).1
    → (qs' : List ℕ) × Claims total (if is_negative z then suc held else held) s' m' qs'
      × ((a : ℕ) → Without a qs → Without a qs')
unfolding give_token tally Without
Claims-Woken held z s' m' n [] sum e is =
    ([], record { left = suc n; is = is; sum = rw e (omega (arith, sum)) }, λ a v. tt)
Claims-Woken held z s' m' n (q ∷ qs) sum e is =
    (qs, record { left = n; is = is; sum = rw e sum }, λ a v. v.1)

-- `sem_signal` gives a token back, or to the process that it wakes.
pub sem_signal-Claims :
    {total held : ℕ} (s : Semaphore) (m : Procs) (qs : List ℕ)
    → Claims total (suc held) s m qs
    → (qs' : List ℕ) × Claims total
        (if is_negative s.count then suc held else held)
        (sem_signal s m).0
        (sem_signal s m).1
        qs'
      × ((a : ℕ) → Without a qs → Without a qs')
sem_signal-Claims {total} {held} s m qs cl =
    Claims-Woken held s.count (sem_signal s m).0 (sem_signal s m).1 cl.left qs cl.sum cl.is.count
      (sem_signal-Woken s m cl.left qs cl.is).0

tried-Claims :
    {total held : ℕ} (got : Bool) (s s' : Semaphore) (m : Procs) (qs : List ℕ)
    → (cl : Claims total held s m qs)
    → ((got ≡ true) × (k : ℕ) × (cl.left ≡ suc k) × IsSemaphore s' m k qs)
      ⊎ ((got ≡ false) × (cl.left ≡ 0) × (s' ≡ s))
    → Claims total (if got then suc held else held) s' m qs
tried-Claims got s s' m qs cl (inl (t, k, e, is)) = record {
  left = k;
  is = is;
  sum = rw t (omega (arith, cl.sum, e));
}
tried-Claims got s s' m qs cl (inr (f, e, same)) = record {
  left = cl.left;
  is = rw same cl.is;
  sum = rw f cl.sum;
}

pub sem_trywait-Claims :
    {total held : ℕ} (s : Semaphore) (m : Procs) (qs : List ℕ)
    → Claims total held s m qs
    → Claims total (if (sem_trywait s).0 then suc held else held) (sem_trywait s).1 m qs
sem_trywait-Claims s m qs cl =
    tried-Claims (sem_trywait s).0 s (sem_trywait s).1 m qs cl
      (sem_trywait_lem s m cl.left qs cl.is)

pub Claims-ran :
    {total held : ℕ} (s : Semaphore) (m m' : Procs) (qs : List ℕ)
    → Spares s m m'
    → Claims total held s m qs
    → Claims total held s m' qs
unfolding Spares
Claims-ran s m m' qs l cl = record {
  left = cl.left;
  is = IsSemaphore-Kept s m m' cl.left qs (l cl.left qs cl.is) cl.is;
  sum = cl.sum;
}

pub sem_create-Claims : (total : ℕ) (m : Procs) → Claims total 0 (sem_create (pos total)) m []
unfolding sem_create tally Spent Linked last_of IsDistinct AllBlocked
sem_create-Claims total m = record {
  left = total;
  is = record { count = refl; spent = tt; linked = refl; tail = refl; distinct = tt; blocked = tt };
  sum = omega arith;
}
