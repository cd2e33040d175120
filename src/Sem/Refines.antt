-- ===== src/Sem/Refines.antt =====
-- The semaphores of src/sem.c against a number of tokens and a first-in first-out queue.
use bayos_kernel.Common.{length-append}
use bayos_kernel.Sched.{ProcessStatus, Procs, set_status}
use bayos_kernel.Sched.Chains.{Linked, Without, IsDistinct}
use bayos_kernel.Sched.ProcessList.{append-IsDistinct}
use bayos_kernel.Sem.{Semaphore, set_wait_next, enqueue, sem_wait}
use bayos_kernel.Sem.Queue.{
  Without-last, wait_of, last_of, AllBlocked, Linked-append, last_of-append, AllBlocked-append,
  AllBlocked-outside,
}
use bayos_kernel.Common.{
  ℕ, zero, suc, ◌<◌, ◌≡◌, refl, sym, ap, ◌∙◌, ◌≢◌, List, [], ◌∷◌, ◌++◌, length, arith, ℤ, pos,
  negsuc, predℤ,
}

-- The counter for `n` tokens and the processes that wait.
unfoldable pub tally : ℕ → List ℕ → ℤ
tally n [] = pos n
tally n (q ∷ qs) = negsuc (length qs)

-- While a process waits, no token is left.
unfoldable pub Spent : ℕ → List ℕ → Type 0
Spent n [] = Unit
Spent n (q ∷ qs) = n ≡ 0

-- The semaphore has `n` tokens, and the processes `qs` wait for one, the first one the longest.
pub record IsSemaphore (s : Semaphore) (m : Procs) (n : ℕ) (qs : List ℕ) : Type 0 where
  pub count : s.count ≡ tally n qs
  pub spent : Spent n qs
  pub linked : Linked (wait_of m) s.wait_head qs
  pub tail : s.wait_tail ≡ last_of qs
  pub distinct : IsDistinct qs
  pub blocked : AllBlocked m qs

-- What `sem_wait` of `p` and `sem_signal` do to the tokens and the queue.
unfoldable pub take_token : ℕ → ℕ → List ℕ → ℕ × List ℕ
take_token p zero qs = (0, qs ++ p ∷ [])
take_token p (suc n) qs = (n, qs)

unfoldable pub give_token : ℕ → List ℕ → ℕ × List ℕ
give_token n [] = (suc n, [])
give_token n (q ∷ qs) = (n, qs)

-- the process that waits, with no link yet
blocks : Procs → ℕ → Procs
blocks m p = set_wait_next (set_status m p ProcessStatus.blocked) p 0

pub wait-pass :
    (s : Semaphore) (p k : ℕ) (m : Procs)
    → s.count ≡ pos (suc k)
    → sem_wait s p m ≡ (record s { count = pos k }, m)
unfolding sem_wait
wait-pass s p k m e = rw (e, sem_wait) refl

wait-block :
    (s : Semaphore) (p k : ℕ) (m : Procs)
    → predℤ s.count ≡ negsuc k
    → sem_wait s p m ≡ enqueue (record s { count = negsuc k }) p m
unfolding sem_wait
wait-block s p k m e = rw (e, sem_wait) refl

enqueue-first :
    (s : Semaphore) (p : ℕ) (m : Procs)
    → s.wait_tail ≡ 0
    → enqueue s p m ≡ (record s { wait_head = p; wait_tail = p }, blocks m p)
unfolding enqueue blocks
enqueue-first s p m e = ground arith

enqueue-behind :
    (s : Semaphore) (p : ℕ) (m : Procs)
    → 0 < s.wait_tail
    → enqueue s p m ≡ (record s { wait_tail = p }, set_wait_next (blocks m p) s.wait_tail p)
unfolding enqueue blocks
enqueue-behind s p m h = ground arith

blocks-status : (m : Procs) (p : ℕ) → (blocks m p p).status ≡ ProcessStatus.blocked
unfolding blocks set_status set_wait_next
blocks-status m p = ground arith

blocks-other :
    (m : Procs) (p a : ℕ)
    → a ≢ p
    → ((blocks m p a).status ≡ (m a).status) × ((blocks m p a).wait_next ≡ (m a).wait_next)
unfolding blocks set_status set_wait_next
blocks-other m p a ne = ground arith

blocks-end : (m : Procs) (p : ℕ) → (blocks m p p).wait_next ≡ 0
unfolding blocks set_status set_wait_next
blocks-end m p = ground arith

link-status : (m : Procs) (t p a : ℕ) → (set_wait_next m t p a).status ≡ (m a).status
unfolding set_wait_next
link-status m t p a = ground arith

link-here : (m : Procs) (t p : ℕ) → (set_wait_next m t p t).wait_next ≡ p
unfolding set_wait_next
link-here m t p = ground arith

link-other : (m : Procs) (t p a : ℕ) → a ≢ t → (set_wait_next m t p a).wait_next ≡ (m a).wait_next
unfolding set_wait_next
link-other m t p a ne = ground arith

-- What `sem_wait` of `p` leaves: the tokens and the queue of `take_token`, with every other process
-- as runnable as before, and `p` as well if there was a token.
pub record Waited (s' : Semaphore) (m m' : Procs) (p n : ℕ) (qs : List ℕ) : Type 0 where
  pub is : IsSemaphore s' m' (take_token p n qs).0 (take_token p n qs).1
  pub others : (a : ℕ) → a ≢ p → (m' a).status ≡ (m a).status
  pub passes : 0 < n → (m' p).status ≡ (m p).status

Waited-first :
    (s : Semaphore) (m : Procs) (p : ℕ)
    → 0 < p
    → IsSemaphore s m 0 []
    → Waited (record s { count = negsuc 0; wait_head = p; wait_tail = p }) m (blocks m p) p 0 []
unfolding take_token tally Spent Linked last_of IsDistinct Without AllBlocked
Waited-first s m p h is = record {
  is = record {
    count = refl;
    spent = refl;
    linked = (refl, h, blocks-end m p);
    tail = refl;
    distinct = (tt, tt);
    blocked = (blocks-status m p, tt);
  };
  others = λ a ne. (blocks-other m p a ne).0;
  passes = λ lt. absurd (omega arith);
}

Waited-behind :
    (s : Semaphore) (m : Procs) (p q : ℕ) (qs : List ℕ)
    → 0 < p
    → Without p (q ∷ qs)
    → IsSemaphore s m 0 (q ∷ qs)
    → Waited
        (record s { count = negsuc (suc (length qs)); wait_tail = p })
        m
        (set_wait_next (blocks m p) (last_of (q ∷ qs)) p)
        p
        0
        (q ∷ qs)
unfolding take_token tally Spent
Waited-behind s m p q qs h w is = record {
  is = record {
    count = ap negsuc (omega (arith, length-append qs (p ∷ [])));
    spent = refl;
    linked =
        Linked-append (wait_of m) (wait_of m') s.wait_head q qs p is.linked is.distinct w h
          (λ a at ap. link-other (blocks m p) (last_of (q ∷ qs)) p a at ∙ (blocks-other m p a ap).1)
          (link-here (blocks m p) (last_of (q ∷ qs)) p)
          (link-other (blocks m p) (last_of (q ∷ qs)) p p (Without-last p q qs w) ∙ blocks-end m p);
    tail = sym (last_of-append (q ∷ qs) p);
    distinct = append-IsDistinct (q ∷ qs) p is.distinct w;
    blocked =
        AllBlocked-append m' (q ∷ qs) p (AllBlocked-outside m m' p (q ∷ qs) w others is.blocked)
          (link-status (blocks m p) (last_of (q ∷ qs)) p p ∙ blocks-status m p);
  };
  others = others;
  passes = λ lt. absurd (omega arith);
}
  where
    m' : Procs
    m' = set_wait_next (blocks m p) (last_of (q ∷ qs)) p

    others : (a : ℕ) → a ≢ p → (m' a).status ≡ (m a).status
    others a ne = link-status (blocks m p) (last_of (q ∷ qs)) p a ∙ (blocks-other m p a ne).0

Waited-pass :
    (s : Semaphore) (m : Procs) (p k : ℕ) (qs : List ℕ)
    → IsSemaphore s m (suc k) qs
    → qs ≡ []
    → Waited (record s { count = pos k }) m m p (suc k) qs
unfolding take_token tally Spent Linked last_of IsDistinct AllBlocked
Waited-pass s m p k [] is e = record {
  is = record {
    count = refl;
    spent = tt;
    linked = is.linked;
    tail = is.tail;
    distinct = tt;
    blocked = tt;
  };
  others = λ a ne. refl;
  passes = λ lt. refl;
}
Waited-pass s m p k (q ∷ qs) is e = absurd (ground (arith, is.spent))

pub last_of-pos :
    (next : ℕ → ℕ) (h q : ℕ) (qs : List ℕ) → Linked next h (q ∷ qs) → 0 < last_of (q ∷ qs)
unfolding Linked last_of
last_of-pos next h q [] c = c.1
last_of-pos next h q (r ∷ rs) c = last_of-pos next (next q) r rs c.2

-- `sem_wait` takes a token if there is one, and the process goes on. Otherwise the process is blocked, and waits
-- behind those that wait already. The status of no other process changes.
pub sem_wait-Waited :
    (s : Semaphore) (p : ℕ) (m : Procs) (n : ℕ) (qs : List ℕ)
    → 0 < p
    → Without p qs
    → IsSemaphore s m n qs
    → let (s', m') = sem_wait s p m in Waited s' m m' p n qs
unfolding tally Spent last_of
sem_wait-Waited s p m zero [] h w is =
    let run =
      wait-block s p 0 m (ap predℤ is.count)
      ∙ enqueue-first (record s { count = negsuc 0 }) p m is.tail in
    rw run (Waited-first s m p h is)
sem_wait-Waited s p m (suc k) [] h w is =
    rw (wait-pass s p k m is.count) (Waited-pass s m p k [] is refl)
sem_wait-Waited s p m zero (q ∷ qs) h w is =
    let run =
      wait-block s p (suc (length qs)) m (ap predℤ is.count)
      ∙ enqueue-behind (record s { count = negsuc (suc (length qs)) }) p m
          (rw is.tail (last_of-pos (wait_of m) s.wait_head q qs is.linked))
      ∙ ap
          (λ t. (
            record s { count = negsuc (suc (length qs)); wait_tail = p },
            set_wait_next (blocks m p) t p,
          ))
          is.tail in
    rw run (Waited-behind s m p q qs h w is)
sem_wait-Waited s p m (suc k) (q ∷ qs) h w is = absurd (ground (arith, is.spent))
