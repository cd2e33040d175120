-- ===== src/Pipe/Reads.antt =====
-- The reader of src/pipe.c as runs of the pipe.
use bayos_kernel.Pipe.Calls.{Goes, freed, read_locked-free, take_keeps}
use bayos_kernel.Sched.{Procs}
use bayos_kernel.Sem.{sem_create}
use bayos_kernel.Sem.Refines.{wait-pass}
use bayos_kernel.Sem.Signal.{trywait-take, trywait-fail}
use bayos_kernel.Pipe.{Pipe, take_byte, signal_empty, returns, read_loop, pipe_read}
use bayos_kernel.Pipe.Flow.{Flows-Flow}
use bayos_kernel.Pipe.Runs.{Flow, Flows, tries_byte, takes, locks, append_assoc, append-nil}
use bayos_kernel.Common.{
  ℕ, zero, suc, ◌+◌, ◌-◌, ◌≡◌, refl, sym, ap, ◌∙◌, List, [], ◌∷◌, ◌++◌, length, arith, pos,
  is_positive, min,
}

-- One round of the loop of `pipe_read` with a byte there and the lock free.
read_loop-step :
    (rounds i c k : ℕ) (p : Pipe) (m : Procs)
    → p.sem_full.count ≡ pos (suc k)
    → p.buf_lock ≡ sem_create (pos 1)
    → let p1 = record p { sem_full = record p.sem_full { count = pos k } } in
      let (p2, m2) = signal_empty (take_byte (freed p1)).1 m in
      let (out, bytes, p3, m3) = read_loop rounds (i + 1) c p2 m2 in
      read_loop (suc rounds) i c p m ≡ (out, (take_byte (freed p1)).0 ∷ bytes, p3, m3)
unfolding read_loop
read_loop-step rounds i c k p m e lock =
    let p1 = record p { sem_full = record p.sem_full { count = pos k } } in
    rw (trywait-take p.sem_full k e, read_locked-free c p1 m lock, read_loop) refl

read_loop-empty :
    (rounds i c : ℕ) (p : Pipe) (m : Procs)
    → p.sem_full.count ≡ pos 0
    → read_loop (suc rounds) i c p m ≡ (returns (pos i), [], p, m)
unfolding read_loop
read_loop-empty rounds i c p m e = rw (trywait-fail p.sem_full (ap is_positive e), read_loop) refl

-- The state after a call that has taken bytes out.
pub record Drained (len : ℕ) (c ready : ℕ) (written taken : List ℕ) (p : Pipe) (m : Procs)
    : Type 0 where
  pub goes : Goes p c m
  pub room : ℕ
  pub flows : Flows len p m room ready written taken
  pub flow : Flow len p m room ready written taken

read_loop-Drained :
    {len ready : ℕ} {written : List ℕ} (rounds i c k room : ℕ) (taken : List ℕ) (p : Pipe)
    (m : Procs)
    → p.sem_full.count ≡ pos k
    → Goes p c m
    → Flows len p m room ready written taken
    → (bytes : List ℕ) × (p' : Pipe) × (m' : Procs) × (read_loop rounds i c p m
        ≡ (returns (pos (i + length bytes)), bytes, p', m'))
      × (length bytes ≡ min rounds k)
      × Drained len c ready written (taken ++ bytes) p' m'
read_loop-Drained {len} {ready} {written} zero i c k room taken p m e g r = (
  [],
  p,
  m,
  unfold read_loop in ap (λ n. (returns (pos n), [], p, m)) (omega arith),
  omega arith,
  (let r' : Flows len p m room ready written (taken ++ []) = rw (append-nil taken) r in
      record { goes = g; room = room; flows = r'; flow = Flows-Flow _ _ _ p m _ _ r' }),
)
read_loop-Drained {len} {ready} {written} (suc rounds) i c zero room taken p m e g r = (
  [],
  p,
  m,
  read_loop-empty rounds i c p m e ∙ ap (λ n. (returns (pos n), [], p, m)) (omega arith),
  omega arith,
  (let r' : Flows len p m room ready written (taken ++ []) = rw (append-nil taken) r in
      record { goes = g; room = room; flows = r'; flow = Flows-Flow _ _ _ p m _ _ r' }),
)
read_loop-Drained (suc rounds) i c (suc k) room taken p m e g r =
    let p1 = record p { sem_full = record p.sem_full { count = pos k } } in
    let tried = tries_byte r in
    let claimed = rw (trywait-take p.sem_full k e) at tried in
    let taking = takes (locks (sem_create (pos 1)) claimed) in
    let byte = (take_byte (freed p1)).0 in
    let kept = take_keeps c (freed p1) m g.runs in
    let goes : Goes (signal_empty (take_byte (freed p1)).1 m).0 c
        (signal_empty (take_byte (freed p1)).1 m).1 =
      record { lock = kept.1; caller = g.caller; runs = kept.2 } in
    let (bytes, p', m', run, size, done) =
      read_loop-Drained rounds (i + 1) c k _ _ (signal_empty (take_byte (freed p1)).1 m).0
        (signal_empty (take_byte (freed p1)).1 m).1 (ap (λ s. s.count) kept.0) goes taking in
    (
      byte ∷ bytes,
      p',
      m',
      read_loop-step rounds i c k p m e g.lock
          ∙ ap (λ o. (o.0, byte ∷ o.1, o.2, o.3)) run
          ∙ ap (λ n. (returns (pos n), byte ∷ bytes, p', m')) (omega arith),
      omega (arith, size),
      rw (append_assoc taken (byte ∷ []) bytes) at done,
    )

pipe_read-loop :
    (c len k : ℕ) (p : Pipe) (m : Procs)
    → p.sem_full.count ≡ pos (suc k)
    → p.buf_lock ≡ sem_create (pos 1)
    → pipe_read c (suc len) p m ≡ read_loop (suc len) 0 c p m
unfolding pipe_read
pipe_read-loop c len k p m e lock =
    let p1 = record p { sem_full = record p.sem_full { count = pos k } } in
    let less : suc len - 1 ≡ len = omega arith in
    rw (wait-pass p.sem_full c k m e, read_locked-free c p1 m lock, e, less, pipe_read)
      (ground arith)
    ∙ sym (read_loop-step len 0 c k p m e lock)

-- If no other process holds the lock of the pipe and `k` bytes are there that no other reader has been promised, one
-- at least, then `pipe_read` of `n` bytes returns without waiting with as many bytes as there are, `n` at most: those
-- that were written next behind the ones taken before, in their order; the ring then holds the rest.
pub pipe_read-Drained :
    {len room ready : ℕ} {written taken : List ℕ} (c n k : ℕ) (p : Pipe) (m : Procs)
    → p.sem_full.count ≡ pos (suc k)
    → Goes p c m
    → Flows len p m room ready written taken
    → (bytes : List ℕ) × (p' : Pipe) × (m' : Procs) × (rest : List ℕ) × (pipe_read c (suc n) p m
        ≡ (returns (pos (length bytes)), bytes, p', m'))
      × (length bytes ≡ min (suc n) (suc k))
      × (written ≡ taken ++ bytes ++ rest)
      × Drained len c ready written (taken ++ bytes) p' m'
pipe_read-Drained c n k p m e g r =
    let (bytes, p', m', run, size, done) = read_loop-Drained (suc n) 0 c (suc k) _ _ p m e g r in
    (
      bytes,
      p',
      m',
      done.flow.bytes,
      pipe_read-loop c n k p m e g.lock
          ∙ run
          ∙ ap (λ n. (returns (pos n), bytes, p', m')) (omega arith),
      size,
      done.flow.order,
      done,
    )
