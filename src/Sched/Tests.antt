-- ===== src/Sched/Tests.antt =====
-- Three processes, the second one blocked: tests, and the theorems at them.
use bayos_kernel.Sched.{ProcessStatus, Process, Sched, is_idle, schedule, remove_proc_from_list}
use bayos_kernel.Sched.Chains.{Linked, Without, IsDistinct}
use bayos_kernel.Sched.Rounds.{first_runnable}
use bayos_kernel.Sched.RoundRobin.{Switched, schedule-RoundRobin, schedule_total}
use bayos_kernel.Sched.ProcessList.{IsList}
use bayos_kernel.Sched.Removal.{Taken, remove_proc_from_list-Taken}
use bayos_kernel.Common.{ℕ, ◌≡◌, refl, some, [], ◌∷◌, arith, ◌==◌, if◌then◌else◌, false}

abbrev process_at : ℕ → Process
process_at a =
    if a == 0x100
    then record {
      status = ProcessStatus.running;
      context = 1;
      next = 0x200;
      wait_next = 0;
      pid = 0xffff_ffff;
    }
    else if a == 0x200
    then record {
      status = ProcessStatus.blocked;
      context = 2;
      next = 0x300;
      wait_next = 0;
      pid = 0;
    }
    else if a == 0x300
    then record { status = ProcessStatus.ready; context = 3; next = 0; wait_next = 0; pid = 1 }
    else record { status = ProcessStatus.ready; context = a; next = 0; wait_next = 0; pid = 2 }

abbrev three : Sched
three = record { process_list = 0x100; current_process = 0x100; procs = process_at }

three-IsList : IsList three (0x100 ∷ 0x200 ∷ 0x300 ∷ [])
unfolding Linked IsDistinct Without
three-IsList = record {
  linked = (refl, omega arith, (refl, omega arith, (refl, omega arith, refl)));
  distinct = ground arith;
}

passes_over_the_blocked : first_runnable three.procs (0x200 ∷ 0x300 ∷ 0x100 ∷ []) ≡ some 0x300
unfolding first_runnable
passes_over_the_blocked = refl

schedule-RoundRobin_example :
    (returned : ℕ) × (s' : Sched) × (schedule 6 7 three ≡ some (returned, s'))
    × Switched 7 0x300 three returned s'
schedule-RoundRobin_example =
    schedule-RoundRobin 6 7 three [] (0x200 ∷ 0x300 ∷ []) (omega arith) three-IsList.linked
      passes_over_the_blocked

schedule_total_example :
    (q : ℕ) × (returned : ℕ) × (s' : Sched) × (schedule 6 7 three ≡ some (returned, s'))
    × Switched 7 q three returned s'
    × (first_runnable three.procs (0x200 ∷ 0x300 ∷ 0x100 ∷ []) ≡ some q)
    × (is_idle (three.procs q).status ≡ false)
schedule_total_example =
    schedule_total 6 7 three [] (0x200 ∷ 0x300 ∷ []) (omega arith) three-IsList.linked refl

absent : Without 0x400 (0x100 ∷ 0x200 ∷ 0x300 ∷ [])
unfolding Without
absent = ground arith

remove_proc_from_list-Taken_example :
    (s' : Sched) × (remove_proc_from_list 3 0x200 three ≡ some s')
    × Taken three s' 0x200 (0x100 ∷ 0x200 ∷ 0x300 ∷ [])
remove_proc_from_list-Taken_example =
    remove_proc_from_list-Taken 3 0x200 three (0x100 ∷ 0x200 ∷ 0x300 ∷ []) (omega arith)
      (omega arith) three-IsList
