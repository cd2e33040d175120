-- ===== src/Sched.antt =====
-- src/sched.c and include/sched.h: the list of processes and the round robin of the timer.
pub mod Chains
pub mod Lookup
pub mod ProcessList
pub mod Removal
pub mod Unlink
pub mod Endless
pub mod Marked
pub mod Next
pub mod RoundRobin
pub mod Rounds
mod Tests
use bayos_kernel.Common.{
  ℕ, zero, suc, Bool, true, false, not, ◌&&◌, ◌||◌, Option, none, some, ◌==◌, if◌then◌else◌,
}

-- `process_status`
pub data ProcessStatus : Type 0 where
  ready running blocked dead : ProcessStatus

-- The fields of `process` that the scheduler and the semaphores use; a pointer is an address, `NULL` is
-- 0, and `pid` is the 32 bits of the `int`.
pub record Process : Type 0 where
  pub status : ProcessStatus
  pub context : ℕ
  pub next : ℕ
  pub wait_next : ℕ
  pub pid : ℕ

-- the record at each address
abbrev pub Procs : Type 0
Procs = ℕ → Process

-- the links of the list
abbrev pub next_of : Procs → ℕ → ℕ
next_of m a = (m a).next

-- The globals of sched.c.
pub record Sched : Type 0 where
  pub process_list : ℕ
  pub current_process : ℕ
  pub procs : Procs

unfoldable pub set_next : Procs → (p q : ℕ) → Procs
set_next m p q a = if a == p then record (m a) { next = q } else m a

unfoldable pub set_status : Procs → ℕ → ProcessStatus → Procs
set_status m p status a = if a == p then record (m a) { status = status } else m a

unfoldable pub set_context : Procs → ℕ → ℕ → Procs
set_context m p context a = if a == p then record (m a) { context = context } else m a

-- `status == DEAD || status == BLOCKED`
abbrev pub is_idle : ProcessStatus → Bool
is_idle ProcessStatus.ready = false
is_idle ProcessStatus.running = false
is_idle ProcessStatus.blocked = true
is_idle ProcessStatus.dead = true

-- The endless loop of `schedule`, on fuel (`none`: it ran out), up to the process that it stops at.
pub schedule_loop : ℕ → Procs → (process_list current : ℕ) → Option ℕ
schedule_loop zero m process_list current = none
schedule_loop (suc fuel) m process_list current =
    let next = if not ((m current).next == 0) then (m current).next else process_list in
    let rest = schedule_loop fuel m process_list next in
    if not (next == 0) && is_idle (m next).status then rest else some next

-- the writes of `schedule` to the process that it leaves
pub save : ℕ → Sched → Procs
unfolding set_status set_context
save context s =
    let m = set_context s.procs s.current_process context in
    if is_idle (m s.current_process).status
    then m
    else set_status m s.current_process ProcessStatus.ready

-- the end of `schedule`: the context to return to, and the state
pub switch_to : Procs → Sched → ℕ → ℕ × Sched
unfolding set_status
switch_to m s q =
    ((m q).context, record s { current_process = q; procs = set_status m q ProcessStatus.running })

pub schedule : ℕ → ℕ → Sched → Option (ℕ × Sched)
unfolding schedule_loop save switch_to
schedule fuel context s =
    let m = save context s in
    elim (schedule_loop fuel m s.process_list s.current_process) [
      | none ↦ none
      | some q ↦ some (switch_to m s q)
    ]

-- `mark_current_proc_as_dead`, up to its call of `yield`
pub mark_current_proc_as_dead : Sched → Sched
unfolding set_status
mark_current_proc_as_dead s = record s {
  procs = set_status s.procs s.current_process ProcessStatus.dead;
}

-- The loop of `insert_process`, and its write.
pub insert_loop : ℕ → Procs → (last p : ℕ) → Option Procs
unfolding set_next
insert_loop zero m last p = none
insert_loop (suc fuel) m last p =
    let rest = insert_loop fuel m (m last).next p in
    if not ((m last).next == 0) then rest else some (set_next m last p)

pub insert_process : ℕ → ℕ → Sched → Option Sched
unfolding insert_loop
insert_process fuel p s = elim (insert_loop fuel s.procs s.process_list p) [
  | none ↦ none
  | some m ↦ some (record s { procs = m })
]

-- The loop of `get_proc_from_pid`; a result of 0 is `NULL`.
pub get_loop : ℕ → Procs → (curr pid : ℕ) → Option ℕ
get_loop zero m curr pid = none
get_loop (suc fuel) m curr pid =
    let rest = get_loop fuel m (m curr).next pid in
    if curr == 0 then some 0 else if (m curr).pid == pid then some curr else rest

pub get_proc_from_pid : ℕ → ℕ → Sched → Option ℕ
unfolding get_loop
get_proc_from_pid fuel pid s = get_loop fuel s.procs s.process_list pid

-- The loop of `remove_proc_from_list`, and its writes.
pub remove_loop : ℕ → Procs → (current p : ℕ) → Option Procs
unfolding set_next
remove_loop zero m current p = none
remove_loop (suc fuel) m current p =
    let rest = remove_loop fuel m (m current).next p in
    if (m current).next == 0
    then some m
    else if (m current).next == p
    then some (set_next (set_next m current (m p).next) p 0)
    else rest

pub remove_proc_from_list : ℕ → ℕ → Sched → Option Sched
unfolding remove_loop set_next
remove_proc_from_list fuel p s =
    let looped : Option Sched = elim (remove_loop fuel s.procs s.process_list p) [
      | none ↦ none
      | some m ↦ some (record s { procs = m })
    ] in
    if p == 0 || s.process_list == 0
    then some s
    else if s.process_list == p
    then some (record s { process_list = (s.procs p).next; procs = set_next s.procs p 0 })
    else looped
