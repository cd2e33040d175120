-- ===== src/Pipe.antt =====
-- src/pipe.c and include/pipe.h: a ring of bytes between processes, guarded by three semaphores.
pub mod Ring
pub mod Runs
pub mod Steps
pub mod Flow
pub mod Calls
pub mod Writes
pub mod Reads
pub mod Heap
mod Tests
use bayos_kernel.Alloc.{Allocator, Mem, alloc, free}
use bayos_kernel.Sched.{Procs}
use bayos_kernel.Sem.{Semaphore, sem_create, sem_wait, sem_trywait, sem_signal}
use bayos_kernel.Common.{
  ◌^◌, ◌<◌, ◌≡◌, refl, ltb, arith, ℕ, zero, suc, ◌+◌, ◌*◌, ◌%◌, Bool, ◌&&◌, true, false, not, ◌-◌,
  Option, none, some, List, [], ◌∷◌, ◌++◌, ◌==◌, if◌then◌else◌, ℤ, pos, negsuc, is_negative,
  is_zero, ◌>>=◌,
}

-- `pipe`; the byte at each index of the buffer.
pub record Pipe : Type 0 where
  pub buffer : ℕ → ℕ
  pub buffer_len : ℕ
  pub read_pos : ℕ
  pub write_pos : ℕ
  pub read_refs : ℕ
  pub write_refs : ℕ
  pub buf_lock : Semaphore
  pub sem_empty : Semaphore
  pub sem_full : Semaphore

-- The `int` of a `size_t`: its lower 32 bits, with a sign.
abbrev pub int_of_size : ℕ → ℤ
int_of_size n =
    if ltb (n % 2 ^ 32) (2 ^ 31) then pos (n % 2 ^ 32) else negsuc (2 ^ 32 - 1 - n % 2 ^ 32)

pub int_of_size-small : (n : ℕ) → n < 2 ^ 31 → int_of_size n ≡ pos n
int_of_size-small n h =
    let same : n % 2 ^ 32 ≡ n = omega (arith, h) in
    let test : ltb n (2 ^ 31) ≡ true = ground (arith, h) in rw (same, test) refl

-- The fields that `pipe_create` sets; `buffer` is what the memory of the buffer holds.
unfoldable pub new_pipe : (buffer : ℕ → ℕ) (buffer_len : ℕ) → Pipe
new_pipe buffer buffer_len = record {
  buffer = buffer;
  buffer_len = buffer_len;
  read_pos = 0;
  write_pos = 0;
  read_refs = 1;
  write_refs = 1;
  buf_lock = sem_create (pos 1);
  sem_empty = sem_create (int_of_size buffer_len);
  sem_full = sem_create (pos 0);
}

-- `sizeof(pipe)`, and of three semaphores
abbrev pub pipe_size : ℕ
pipe_size = 64

abbrev pub semaphores_size : ℕ
semaphores_size = 3 * 24

-- The three pointers that `pipe_create` gets from the heap: to the pipe, its buffer and its semaphores. `none` is that
-- of `alloc`, or a write through `NULL`: the first field of the pipe is written before the semaphores are allocated.
unfoldable pub pipe_create : Allocator → (buffer_len : ℕ) → Mem → Option ((ℕ × ℕ × ℕ) × Mem)
pipe_create al buffer_len m = do
  p ← alloc al pipe_size m
  b ← alloc al buffer_len p.1
  s ← if p.0 == 0 then none else alloc al semaphores_size b.1
  if s.0 == 0 then none else some ((p.0, b.0, s.0), s.1)

pub pipe_close : Allocator → ℕ × ℕ × ℕ → Mem → Mem
pipe_close al (p, b, s) m = free al p (free al b (free al s m))

-- The two writes to the ring.
pub put_byte : ℕ → Pipe → Pipe
put_byte byte p = record p {
  buffer = λ i. if i == p.write_pos then byte else p.buffer i;
  write_pos = (p.write_pos + 1) % p.buffer_len;
}

-- The byte that is read, and the write of its position.
pub take_byte : Pipe → ℕ × Pipe
take_byte p = (p.buffer p.read_pos, record p { read_pos = (p.read_pos + 1) % p.buffer_len })

-- `sem_signal(p->sem_full)` and `sem_signal(p->sem_empty)`
pub signal_full : Pipe → Procs → Pipe × Procs
signal_full p m = let (s, m') = sem_signal p.sem_full m in (record p { sem_full = s }, m')

pub signal_empty : Pipe → Procs → Pipe × Procs
signal_empty p m = let (s, m') = sem_signal p.sem_empty m in (record p { sem_empty = s }, m')

-- `pipe_try_write`
pub pipe_try_write : Pipe → ℕ → Procs → ℤ × Pipe × Procs
unfolding put_byte signal_full
pipe_try_write p byte m =
    let (got, s) = sem_trywait p.sem_empty in
    let (p', m') = signal_full (put_byte byte (record p { sem_empty = s })) m in
    if p.read_refs == 0 then (negsuc 0, p, m) else if got then (pos 1, p', m') else (pos 0, p, m)

-- How a call ends that may have to wait: it returns, or it yields in a `sem_wait`, for room or a byte, or for the
-- lock, with the bytes that it has moved.
pub data Outcome : Type 0 where
  returns : ℤ → Outcome
  waits : ℕ → Outcome
  waits_for_lock : ℕ → Outcome

-- The body of the loop of `pipe_write` from the lock on, for process `c`; `true` means that it has
-- to wait for the lock.
pub write_locked : (c byte : ℕ) → Pipe → Procs → Bool × Pipe × Procs
unfolding put_byte signal_full
write_locked c byte p m =
    let (l, m1) = sem_wait p.buf_lock c m in
    let (l', m2) = sem_signal l m1 in
    let (p', m3) = signal_full (record (put_byte byte p) { buf_lock = l' }) m2 in
    if is_negative l.count then (true, record p { buf_lock = l }, m1) else (false, p', m3)

-- The loop of `pipe_write`, with `i` bytes written and the others to go.
pub write_loop : (i c : ℕ) → List ℕ → Pipe → Procs → Outcome × Pipe × Procs
unfolding write_locked
write_loop i c [] p m = (returns (pos i), p, m)
write_loop i c (byte ∷ bytes) p m =
    let (e, m1) = sem_wait p.sem_empty c m in
    let p1 = record p { sem_empty = e } in
    let (locked, p2, m2) = write_locked c byte p1 m1 in
    let rest = write_loop (i + 1) c bytes p2 m2 in
    if is_negative e.count
    then (waits i, p1, m1)
    else if p.read_refs == 0
    then (returns (pos i), p1, m1)
    else if locked
    then (waits_for_lock i, p2, m2)
    else rest

pub pipe_write : (c : ℕ) → List ℕ → Pipe → Procs → Outcome × Pipe × Procs
unfolding write_loop
pipe_write c bytes p m =
    if p.read_refs == 0 then (returns (negsuc 0), p, m) else write_loop 0 c bytes p m

-- The reads of `pipe_read` under the lock, with the byte that is read.
pub read_locked : (c : ℕ) → Pipe → Procs → Bool × ℕ × Pipe × Procs
unfolding take_byte signal_empty
read_locked c p m =
    let (l, m1) = sem_wait p.buf_lock c m in
    let (l', m2) = sem_signal l m1 in
    let (byte, p1) = take_byte p in
    let (p', m3) = signal_empty (record p1 { buf_lock = l' }) m2 in
    if is_negative l.count then (true, 0, record p { buf_lock = l }, m1) else (false, byte, p', m3)

-- The loop of `pipe_read`, with `i` bytes read and `rounds` to go; the bytes that it reads.
pub read_loop : (rounds i c : ℕ) → Pipe → Procs → Outcome × List ℕ × Pipe × Procs
unfolding read_locked
read_loop zero i c p m = (returns (pos i), [], p, m)
read_loop (suc rounds) i c p m =
    let (got, f) = sem_trywait p.sem_full in
    let (locked, byte, p1, m1) = read_locked c (record p { sem_full = f }) m in
    let (out, bytes, p2, m2) = read_loop rounds (i + 1) c p1 m1 in
    if not got
    then (returns (pos i), [], p, m)
    else if locked
    then (waits_for_lock i, [], p1, m1)
    else (out, byte ∷ bytes, p2, m2)

pub pipe_read : (c len : ℕ) → Pipe → Procs → Outcome × List ℕ × Pipe × Procs
unfolding read_locked read_loop
pipe_read c len p m =
    let (f, m1) = sem_wait p.sem_full c m in
    let p1 = record p { sem_full = f } in
    let (locked, byte, p2, m2) = read_locked c p1 m1 in
    let (out, bytes, p3, m3) = read_loop (len - 1) 1 c p2 m2 in
    if len == 0
    then (returns (pos 0), [], p, m)
    else if p.write_refs == 0 && is_zero p.sem_full.count
    then (returns (pos 0), [], p, m)
    else if is_negative f.count
    then (waits 0, [], p1, m1)
    else if locked
    then (waits_for_lock 0, [], p2, m2)
    else (out, byte ∷ bytes, p3, m3)
