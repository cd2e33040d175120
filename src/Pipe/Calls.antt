-- ===== src/Pipe/Calls.antt =====
-- The calls of src/pipe.c by a process that finds the lock free.
use bayos_kernel.Sched.{ProcessStatus, Procs}
use bayos_kernel.Sem.{sem_create}
use bayos_kernel.Sem.Signal.{free_lock, sem_signal-runs}
use bayos_kernel.Pipe.{
  Pipe, put_byte, take_byte, signal_full, signal_empty, write_locked, read_locked,
}
use bayos_kernel.Common.{ℕ, ◌<◌, ◌≡◌, refl, ◌≢◌, false, pos}

-- A process that runs finds the lock free.
pub record Goes (p : Pipe) (c : ℕ) (m : Procs) : Type 0 where
  pub lock : p.buf_lock ≡ sem_create (pos 1)
  pub caller : 0 < c
  pub runs : (m c).status ≢ ProcessStatus.blocked

-- The pipe with its lock free.
abbrev pub freed : Pipe → Pipe
freed p = record p { buf_lock = sem_create (pos 1) }

pub write_locked-free :
    (c byte : ℕ) (p : Pipe) (m : Procs)
    → p.buf_lock ≡ sem_create (pos 1)
    → let (p', m') = signal_full (put_byte byte (freed p)) m in
      write_locked c byte p m ≡ (false, p', m')
unfolding write_locked signal_full put_byte sem_create
write_locked-free c byte p m e = rw (e, (free_lock c m).0, (free_lock c m).1) refl

pub read_locked-free :
    (c : ℕ) (p : Pipe) (m : Procs)
    → p.buf_lock ≡ sem_create (pos 1)
    → let (p', m') = signal_empty (take_byte (freed p)).1 m in
      read_locked c p m ≡ (false, (take_byte (freed p)).0, p', m')
unfolding read_locked signal_empty take_byte sem_create
read_locked-free c p m e = rw (e, (free_lock c m).0, (free_lock c m).1) refl

pub put_keeps :
    (b c : ℕ) (q : Pipe) (m : Procs)
    → (m c).status ≢ ProcessStatus.blocked
    → let (p', m') = signal_full (put_byte b q) m in
      (p'.sem_empty ≡ q.sem_empty)
      × (p'.read_refs ≡ q.read_refs)
      × (p'.buf_lock ≡ q.buf_lock)
      × ((m' c).status ≢ ProcessStatus.blocked)
unfolding signal_full put_byte
put_keeps b c q m ne = (refl, refl, refl, sem_signal-runs q.sem_full m c ne)

pub take_keeps :
    (c : ℕ) (q : Pipe) (m : Procs)
    → (m c).status ≢ ProcessStatus.blocked
    → let (p', m') = signal_empty (take_byte q).1 m in
      (p'.sem_full ≡ q.sem_full)
      × (p'.buf_lock ≡ q.buf_lock)
      × ((m' c).status ≢ ProcessStatus.blocked)
unfolding signal_empty take_byte
take_keeps c q m ne = (refl, refl, sem_signal-runs q.sem_empty m c ne)
