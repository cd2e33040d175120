-- ===== src/Sem/Tests.antt =====
-- A mutex with one process that waits: tests, and the theorems at them.
use bayos_kernel.Sched.{ProcessStatus, Process, Procs}
use bayos_kernel.Sched.Chains.{Linked, Without, IsDistinct}
use bayos_kernel.Sem.{enqueue, Semaphore, sem_create, sem_wait, sem_signal}
use bayos_kernel.Sem.Queue.{last_of, AllBlocked}
use bayos_kernel.Sem.Refines.{tally, Spent, IsSemaphore, give_token, Waited, sem_wait-Waited}
use bayos_kernel.Sem.Mutex.{Reached, waited, created, Balanced, Reached-Balanced}
use bayos_kernel.Sem.Signal.{Woken, sem_signal-Woken}
use bayos_kernel.Common.{ℕ, ◌≤◌, refl, [], ◌∷◌, arith, ◌==◌, if◌then◌else◌, pos, negsuc}

abbrev process_at : ℕ → Process
process_at a =
    if a == 0x100
    then record { status = ProcessStatus.blocked; context = 1; next = 0; wait_next = 0; pid = 1 }
    else record { status = ProcessStatus.running; context = a; next = 0; wait_next = 0; pid = 2 }

abbrev taken : Semaphore
taken = record { count = negsuc 0; wait_head = 0x100; wait_tail = 0x100 }

taken-IsSemaphore : IsSemaphore taken process_at 0 (0x100 ∷ [])
unfolding tally Spent Linked last_of IsDistinct Without AllBlocked
taken-IsSemaphore = record {
  count = refl;
  spent = refl;
  linked = (refl, omega arith, refl);
  tail = refl;
  distinct = (tt, tt);
  blocked = (refl, tt);
}

absent : Without 0x200 (0x100 ∷ [])
unfolding Without
absent = ground arith

sem_wait-Waited_example :
    let (s', m') = sem_wait taken 0x200 process_at in Waited s' process_at m' 0x200 0 (0x100 ∷ [])
sem_wait-Waited_example =
    sem_wait-Waited taken 0x200 process_at 0 (0x100 ∷ []) (omega arith) absent taken-IsSemaphore

sem_signal-Woken_example :
    let (s', m') = sem_signal taken process_at in
    IsSemaphore s' m' (give_token 0 (0x100 ∷ [])).0 (give_token 0 (0x100 ∷ [])).1
    × Woken process_at m' (0x100 ∷ [])
sem_signal-Woken_example = sem_signal-Woken taken process_at 0 (0x100 ∷ []) taken-IsSemaphore

-- Two processes want the mutex, one after the other.
abbrev all_run : Procs
all_run a = record { status = ProcessStatus.running; context = a; next = 0; wait_next = 0; pid = 2 }

first_one : Semaphore × Procs
first_one = sem_wait (sem_create (pos 1)) 0x100 all_run

both_ones : Semaphore × Procs
both_ones = sem_wait first_one.0 0x200 first_one.1

one_waits : Reached 1 both_ones.0 both_ones.1 1
unfolding both_ones first_one sem_wait sem_create enqueue
one_waits =
    waited 0x200 (omega arith) (λ e. ground (arith, e))
      (waited 0x100 (omega arith) (λ e. ground (arith, e)) created)

Reached-Balanced_example : Balanced 1 both_ones.0 both_ones.1 1 × 1 ≤ 1
Reached-Balanced_example = Reached-Balanced 1 1 both_ones.0 both_ones.1 one_waits
