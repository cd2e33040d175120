-- ===== src/Pipe/Tests.antt =====
-- A pipe of three bytes: tests, and the theorems at it.
use bayos_kernel.Pipe.{sem_trywait}
use bayos_kernel.Alloc.{NodeStatus, Mem, new_allocator}
use bayos_kernel.Common.{none, ◌⊎◌, ◌++◌}
use bayos_kernel.Alloc.Blocks.{Block, free_block, IsHeap}
use bayos_kernel.Alloc.Client.{new_allocator-IsHeap}
use bayos_kernel.Sched.{ProcessStatus, Procs}
use bayos_kernel.Sem.{sem_create, sem_trywait, sem_signal}
use bayos_kernel.Pipe.{
  Pipe, new_pipe, pipe_create, pipe_close, pipe_write, pipe_read, pipe_try_write, returns, put_byte,
  signal_full,
}
use bayos_kernel.Pipe.Runs.{Flows, created, puts, tries_room, Flow}
use bayos_kernel.Pipe.Calls.{Goes}
use bayos_kernel.Pipe.Writes.{Done, pipe_write-Done, pipe_try_write_lem}
use bayos_kernel.Pipe.Reads.{Drained, pipe_read-Drained}
use bayos_kernel.Pipe.Heap.{pipe_at, buffer_at, semaphores_at, pipe_close-create}
use bayos_kernel.Common.{
  ℕ, if◌then◌else◌, ◌==◌, ◌<◌, ◌≡◌, ◌⊎◌, refl, some, false, List, [], ◌∷◌, length, min, arith, pos,
  is_positive,
}

abbrev running : Procs
running a = record { status = ProcessStatus.running; context = 0; next = 0; wait_next = 0; pid = 1 }

abbrev three : Pipe
three = new_pipe (λ i. 0) 3

idle : Flows 3 three running 0 0 [] []
idle = created (λ i. 0) (omega arith) (omega arith)

goes : Goes three 0x100 running
unfolding new_pipe
goes = record { lock = refl; caller = omega arith; runs = λ e. ground (arith, e) }

pipe_write-Done_example :
    (p' : Pipe) × (m' : Procs) × (pipe_write 0x100 (7 ∷ 8 ∷ []) three running
      ≡ (returns (pos 2), p', m'))
    × Done 3 0x100 0 (7 ∷ 8 ∷ []) [] p' m'
unfolding new_pipe sem_create
pipe_write-Done_example =
    pipe_write-Done 0x100 3 (7 ∷ 8 ∷ []) three running refl (omega arith) (λ e. ground (arith, e))
      goes idle

pipe_try_write_lem_example :
    ((p' : Pipe) × (m' : Procs) × (ready' : ℕ) × (pipe_try_write three 7 running ≡ (pos 1, p', m'))
      × Flows 3 p' m' 0 ready' (7 ∷ []) []
      × Flow 3 p' m' 0 ready' (7 ∷ []) [])
    ⊎ ((pipe_try_write three 7 running ≡ (pos 0, three, running))
        × (is_positive three.sem_empty.count ≡ false))
unfolding new_pipe
pipe_try_write_lem_example = pipe_try_write_lem 7 three running (λ e. ground (arith, e)) idle

-- the pipe with a byte in it
abbrev filled : Pipe
filled = record three {
  buffer = λ i. if i == 0 then 7 else 0;
  write_pos = 1;
  sem_empty = record { count = pos 2; wait_head = 0; wait_tail = 0 };
  sem_full = record { count = pos 1; wait_head = 0; wait_tail = 0 };
}

one_byte : Flows 3 filled running 0 0 (7 ∷ []) []
unfolding new_pipe sem_create sem_trywait sem_signal put_byte signal_full
one_byte = puts 7 (tries_room idle)

filled-Goes : Goes filled 0x100 running
unfolding new_pipe sem_create
filled-Goes = record { lock = refl; caller = omega arith; runs = λ e. ground (arith, e) }

pipe_read-Drained_example :
    (bytes : List ℕ) × (p' : Pipe) × (m' : Procs) × (rest : List ℕ) × (pipe_read 0x100 2 filled
        running
      ≡ (returns (pos (length bytes)), bytes, p', m'))
    × (length bytes ≡ min 2 1)
    × ((7 ∷ []) ≡ bytes ++ rest)
    × Drained 3 0x100 0 (7 ∷ []) bytes p' m'
pipe_read-Drained_example = pipe_read-Drained 0x100 1 0 filled running refl filled-Goes one_byte

abbrev blank : Mem
blank a = record { size = 0; prev = 0; next = 0; status = NodeStatus.free }

fresh : let (al, m) = new_allocator 0x1000 0x400 blank in IsHeap al m (free_block 0x3e0 ∷ [])
fresh = new_allocator-IsHeap 0x1000 0x400 blank (omega arith) (omega arith) (omega arith)

abbrev blocks : List Block
blocks = free_block 0x3e0 ∷ []

pipe_close-create_example :
    let (al, m0) = new_allocator 0x1000 0x400 blank in
    ((m : Mem) × (0 < pipe_at 0x80 al.addr blocks)
      × (0 < semaphores_at 0x80 al.addr blocks)
      × (pipe_create al 0x80 m0
          ≡ some (
            (
              pipe_at 0x80 al.addr blocks,
              buffer_at 0x80 al.addr blocks,
              semaphores_at 0x80 al.addr blocks,
            ),
            m,
          ))
      × (0 < buffer_at 0x80 al.addr blocks
          → IsHeap al
              (pipe_close al
                (
                  pipe_at 0x80 al.addr blocks,
                  buffer_at 0x80 al.addr blocks,
                  semaphores_at 0x80 al.addr blocks,
                )
                m)
              blocks))
    ⊎ ((pipe_create al 0x80 m0 ≡ none)
        × ((pipe_at 0x80 al.addr blocks ≡ 0) ⊎ (semaphores_at 0x80 al.addr blocks ≡ 0)))
pipe_close-create_example = pipe_close-create 0x80 (omega arith) fresh
