-- ===== src/Pipe/Runs.antt =====
-- Runs of one pipe of src/pipe.c by any number of readers and writers, as a step relation, and what
-- they keep.
use bayos_kernel.Sched.{ProcessStatus, Procs}
use bayos_kernel.Sem.{Semaphore, sem_wait, sem_trywait}
use bayos_kernel.Sem.Frame.{Disjoint}
use bayos_kernel.Sem.Mutex.{Spares}
use bayos_kernel.Sem.Claims.{Claims}
use bayos_kernel.Pipe.{Pipe, new_pipe, put_byte, take_byte, signal_full, signal_empty}
use bayos_kernel.Pipe.Ring.{Holds}
use bayos_kernel.Common.{
  ℕ, ◌^◌, suc, ◌+◌, ◌<◌, ◌≡◌, refl, ap, ◌≢◌, List, [], ◌∷◌, ◌++◌, length, is_negative,
  if◌then◌else◌,
}

-- The states that a pipe with a buffer of `len` bytes comes to. `room` counts the writers that have
-- got past the first `sem_wait` and have not written their byte, `ready` the readers that have not read theirs; `written`
-- and `taken` are the bytes that went in and out. The two writes to the ring are one step: the lock makes them one
-- between `pipe_write` and `pipe_read`. `pipe_try_write` does not take the lock, so that a run in which it comes
-- between two writes of `pipe_write` is none of these.
pub data Flows (len : ℕ) : Pipe → Procs → (room ready : ℕ) → (written taken : List ℕ) → Type 0 where
  created :
      (buffer : ℕ → ℕ) {m : Procs}
      → 0 < len
      → len < 2 ^ 31
      → Flows len (new_pipe buffer len) m 0 0 [] []
  asks_room :
      {p : Pipe} {m : Procs} {room ready : ℕ} {written taken : List ℕ} (c : ℕ)
      → 0 < c
      → (m c).status ≢ ProcessStatus.blocked
      → Flows len p m room ready written taken
      → Flows len
          (record p { sem_empty = (sem_wait p.sem_empty c m).0 })
          (sem_wait p.sem_empty c m).1
          (if is_negative (sem_wait p.sem_empty c m).0.count then room else suc room)
          ready
          written
          taken
  tries_room :
      {p : Pipe} {m : Procs} {room ready : ℕ} {written taken : List ℕ}
      → Flows len p m room ready written taken
      → Flows len
          (record p { sem_empty = (sem_trywait p.sem_empty).1 })
          m
          (if (sem_trywait p.sem_empty).0 then suc room else room)
          ready
          written
          taken
  puts :
      {p : Pipe} {m : Procs} {room ready : ℕ} {written taken : List ℕ} (b : ℕ)
      → Flows len p m (suc room) ready written taken
      → Flows len
          (signal_full (put_byte b p) m).0
          (signal_full (put_byte b p) m).1
          room
          (if is_negative p.sem_full.count then suc ready else ready)
          (written ++ b ∷ [])
          taken
  asks_byte :
      {p : Pipe} {m : Procs} {room ready : ℕ} {written taken : List ℕ} (c : ℕ)
      → 0 < c
      → (m c).status ≢ ProcessStatus.blocked
      → Flows len p m room ready written taken
      → Flows len
          (record p { sem_full = (sem_wait p.sem_full c m).0 })
          (sem_wait p.sem_full c m).1
          room
          (if is_negative (sem_wait p.sem_full c m).0.count then ready else suc ready)
          written
          taken
  tries_byte :
      {p : Pipe} {m : Procs} {room ready : ℕ} {written taken : List ℕ}
      → Flows len p m room ready written taken
      → Flows len
          (record p { sem_full = (sem_trywait p.sem_full).1 })
          m
          room
          (if (sem_trywait p.sem_full).0 then suc ready else ready)
          written
          taken
  takes :
      {p : Pipe} {m : Procs} {room ready : ℕ} {written taken : List ℕ}
      → Flows len p m room (suc ready) written taken
      → Flows len
          (signal_empty (take_byte p).1 m).0
          (signal_empty (take_byte p).1 m).1
          (if is_negative p.sem_empty.count then suc room else room)
          ready
          written
          (taken ++ (take_byte p).0 ∷ [])
  locks :
      {p : Pipe} {m : Procs} {room ready : ℕ} {written taken : List ℕ} (l : Semaphore)
      → Flows len p m room ready written taken
      → Flows len (record p { buf_lock = l }) m room ready written taken
  ran :
      {p : Pipe} {m : Procs} {room ready : ℕ} {written taken : List ℕ} (m' : Procs)
      → Spares p.sem_empty m m'
      → Spares p.sem_full m m'
      → Flows len p m room ready written taken
      → Flows len p m' room ready written taken

-- The bytes in the ring are those that were written and not taken, in their order; each slot is
-- free, claimed by a writer or holds a byte, and each byte is free or claimed by a reader.
pub record Flow (len : ℕ) (p : Pipe) (m : Procs) (room ready : ℕ) (written taken : List ℕ)
    : Type 0 where
  pub bytes : List ℕ
  pub order : written ≡ taken ++ bytes
  pub holds : Holds p len bytes
  pub slots : ℕ
  pub sum : slots + length bytes ≡ len
  pub writers : List ℕ
  pub readers : List ℕ
  pub apart : Disjoint writers readers
  pub empty : Claims slots room p.sem_empty m writers
  pub full : Claims (length bytes) ready p.sem_full m readers

pub append-nil : (xs : List ℕ) → xs ++ [] ≡ xs
append-nil [] = refl
append-nil (x ∷ xs) = ap (λ t. x ∷ t) (append-nil xs)

pub append_assoc : (xs ys zs : List ℕ) → xs ++ ys ++ zs ≡ xs ++ (ys ++ zs)
append_assoc [] ys zs = refl
append_assoc (x ∷ xs) ys zs = ap (λ t. x ∷ t) (append_assoc xs ys zs)
