-- ===== src/Syscalls/Handler.antt =====
-- `syscall_handler` of src/syscall.c, and the calls that it passes on.
use bayos_kernel.Syscalls.{
  Kernel, get_current_process, from_int, anon_allocate_syscall, exit_syscall, waitpid_syscall,
}
use bayos_kernel.Syscalls.Forks.{fork_syscall}
use bayos_kernel.Syscalls.Execs.{Files, Exec, refused, entered, execve_syscall}
use bayos_kernel.Alloc.{Allocator}
use bayos_kernel.Resources.{Streams, resource_read, resource_write}
use bayos_kernel.Common.{
  ℕ, ◌-◌, ◌%◌, ◌^◌, Option, none, some, ltb, ◌==◌, if◌then◌else◌, ℤ, pos, negsuc, ◌>>=◌,
}

-- The low 32 bits of a number as an `int`.
unfoldable pub int_of : ℕ → ℤ
int_of n =
    let bits = n % 2 ^ 32 in if ltb bits (2 ^ 31) then pos bits else negsuc (2 ^ 32 - bits - 1)

-- What a call finds: the heap's allocator, the register `cr3`, the calls of pipes and files, where the
-- context of a new process is, and the state that a `yield` comes back in; `fuel` is for the loops.
pub record Machine (W : Type 0) : Type 0 where
  pub fuel : ℕ
  pub arena : Allocator
  pub cr3 : ℕ
  pub context : ℕ
  pub streams : Streams W
  pub files : Files W
  pub yield : Kernel W → Kernel W

-- How a call ends: with a result, in the scheduler for ever, or in another program.
pub data Ending (W : Type 0) : Type 0 where
  returned : ℕ → Kernel W → Ending W
  exited : Kernel W → Ending W
  started : (rip : ℕ) → Kernel W → Ending W

pub as_ending : {W : Type 0} → Option (ℕ × Kernel W) → Option (Ending W)
as_ending none = none
as_ending (some (value, k)) = some (returned value k)

unfoldable pub read_syscall :
    {W : Type 0} → Machine W → (fd buf len : ℕ) → Kernel W → Option (ℕ × Kernel W)
unfolding int_of
read_syscall e fd buf len k = do
  (n, io) ←
      resource_read e.streams (int_of fd) buf len
        (k.tables (k.users (get_current_process k)).resources) k.io
  some (from_int n, record k { io = io })

unfoldable pub write_syscall :
    {W : Type 0} → Machine W → (fd buf len : ℕ) → Kernel W → Option (ℕ × Kernel W)
unfolding int_of
write_syscall e fd buf len k = do
  (n, io) ←
      resource_write e.streams (int_of fd) buf len
        (k.tables (k.users (get_current_process k)).resources) k.io
  some (from_int n, record k { io = io })

-- The number of a call, as `syscall_handler` tells them apart.
pub data Call : Type 0 where
  read write anon_allocate exit fork execve waitpid unknown : Call

pub call_of : ℕ → Call
call_of index =
    if index == 0
    then Call.read
    else if index == 1
    then Call.write
    else if index == 2
    then Call.anon_allocate
    else if index == 3
    then Call.exit
    else if index == 4
    then Call.fork
    else if index == 5
    then Call.execve
    else if index == 6
    then Call.waitpid
    else Call.unknown

-- A new process has its fork's result in `after_timer`; this is the result in its parent.
pub fork_result : {W : Type 0} → Option (ℕ × ℕ × ℕ × Kernel W) → Option (Ending W)
fork_result none = none
fork_result (some (new_cr3, p, value, k)) = some (returned value k)

pub exec_result : {W : Type 0} → Option (Exec W) → Option (Ending W)
exec_result none = none
exec_result (some (refused k)) = some (returned (2 ^ 64 - 1) k)
exec_result (some (entered rip k)) = some (started rip k)

pub syscall_handler :
    {W : Type 0} → Machine W → (index arg0 arg1 arg2 : ℕ) → Kernel W → Option (Ending W)
unfolding call_of as_ending read_syscall write_syscall fork_result exec_result
syscall_handler e index arg0 arg1 arg2 k = elim (call_of index) [
  | Call.read ↦ as_ending (read_syscall e arg0 arg1 arg2 k)
  | Call.write ↦ as_ending (write_syscall e arg0 arg1 arg2 k)
  | Call.anon_allocate ↦ as_ending (anon_allocate_syscall e.cr3 arg0 arg1 k)
  | Call.exit ↦ some (exited (exit_syscall e.arena k))
  | Call.fork ↦ fork_result (fork_syscall e.fuel e.arena e.context k)
  | Call.execve ↦ exec_result (execve_syscall e.files e.fuel e.cr3 arg0 k)
  | Call.waitpid ↦ as_ending (waitpid_syscall e.yield e.fuel e.arena (arg0 % 2 ^ 32) arg1 k)
  | Call.unknown ↦ some (returned (2 ^ 64 - 1) k)
]
