-- ===== src/Sem.antt =====
-- src/sem.c and include/sem.h: counting semaphores with a queue of waiting processes.
pub mod Claims
pub mod Frame
pub mod Mutex
pub mod Queue
pub mod Refines
pub mod Signal
mod Tests
use bayos_kernel.Sched.{ProcessStatus, Process, Procs, Sched, set_status}
use bayos_kernel.Common.{
  ℕ, Bool, true, false, not, ◌&&◌, ◌==◌, if◌then◌else◌, ℤ, pos, negsuc, sucℤ, predℤ, is_negative,
  is_positive,
}

-- `semaphore`
pub record Semaphore : Type 0 where
  pub count : ℤ
  pub wait_head : ℕ
  pub wait_tail : ℕ

unfoldable pub set_wait_next : Procs → (p q : ℕ) → Procs
set_wait_next m p q a = if a == p then record (m a) { wait_next = q } else m a

unfoldable pub sem_create : ℤ → Semaphore
sem_create initial_count = record { count = initial_count; wait_head = 0; wait_tail = 0 }

-- The writes of `sem_wait` for a process that has to wait. The scheduler runs next, at `yield`.
pub enqueue : Semaphore → ℕ → Procs → Semaphore × Procs
unfolding set_status set_wait_next
enqueue s p m =
    let m1 = set_wait_next (set_status m p ProcessStatus.blocked) p 0 in
    if not (s.wait_tail == 0)
    then (record s { wait_tail = p }, set_wait_next m1 s.wait_tail p)
    else (record s { wait_head = p; wait_tail = p }, m1)

-- `sem_wait` of the process at `p`.
pub sem_wait : Semaphore → ℕ → Procs → Semaphore × Procs
unfolding enqueue
sem_wait s p m =
    let s1 = record s { count = predℤ s.count } in
    if is_negative s1.count then enqueue s1 p m else (s1, m)

-- `true` stands for 1: acquired without blocking.
unfoldable pub sem_trywait : Semaphore → Bool × Semaphore
sem_trywait s =
    if is_positive s.count then (true, record s { count = predℤ s.count }) else (false, s)

-- The writes of `sem_signal` that wake the first process that waits.
pub wake : Semaphore → Procs → Semaphore × Procs
unfolding set_status set_wait_next
wake s m =
    let woken = s.wait_head in
    let head = (m woken).wait_next in
    let tail = if head == 0 then 0 else s.wait_tail in
    (
      record s { wait_head = head; wait_tail = tail },
      set_status (set_wait_next m woken 0) woken ProcessStatus.ready,
    )

unfoldable pub sem_signal : Semaphore → Procs → Semaphore × Procs
unfolding wake
sem_signal s m =
    let s1 = record s { count = sucℤ s.count } in
    if not (is_positive s1.count) && not (s1.wait_head == 0) then wake s1 m else (s1, m)
