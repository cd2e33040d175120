-- ===== src/Pipe/Writes.antt =====
-- The writers of src/pipe.c as runs of the pipe.
use bayos_kernel.Pipe.Calls.{Goes, freed, write_locked-free, put_keeps}
use bayos_kernel.Sched.{Procs}
use bayos_kernel.Sem.{sem_create}
use bayos_kernel.Sem.Refines.{wait-pass}
use bayos_kernel.Sem.Signal.{trywait-take, trywait-fail}
use bayos_kernel.Pipe.{Pipe, put_byte, signal_full, pipe_try_write, returns, write_loop, pipe_write}
use bayos_kernel.Pipe.Flow.{Flows-Flow}
use bayos_kernel.Pipe.Runs.{
  Flow, Flows, asks_room, tries_room, puts, locks, append_assoc, append-nil,
}
use bayos_kernel.Common.{
  ℕ, zero, suc, ◌+◌, ◌≤◌, ◌≡◌, refl, ap, ◌∙◌, ◌≢◌, ◌⊎◌, inl, inr, false, List, [], ◌∷◌, ◌++◌,
  length, arith, ℤ, pos, negsuc, is_positive,
}

-- One round of the loop of `pipe_write` with a slot and the lock free.
write_loop-step :
    (i c byte k : ℕ) (bytes : List ℕ) (p : Pipe) (m : Procs)
    → p.sem_empty.count ≡ pos (suc k)
    → p.read_refs ≢ 0
    → p.buf_lock ≡ sem_create (pos 1)
    → let p1 = record p { sem_empty = record p.sem_empty { count = pos k } } in
      let (p2, m2) = signal_full (put_byte byte (freed p1)) m in
      write_loop i c (byte ∷ bytes) p m ≡ write_loop (i + 1) c bytes p2 m2
unfolding write_loop
write_loop-step i c byte k bytes p m e opened lock =
    let p1 = record p { sem_empty = record p.sem_empty { count = pos k } } in
    rw (wait-pass p.sem_empty c k m e, write_locked-free c byte p1 m lock, write_loop)
      (ground (arith, opened))

-- The state after a call that has put in, or taken out, all that it was asked for.
pub record Done (len : ℕ) (c room : ℕ) (written taken : List ℕ) (p : Pipe) (m : Procs)
    : Type 0 where
  pub goes : Goes p c m
  pub ready : ℕ
  pub flows : Flows len p m room ready written taken
  pub flow : Flow len p m room ready written taken

write_loop-Done :
    {len room ready : ℕ} {written taken : List ℕ} (i c k : ℕ) (bytes : List ℕ) (p : Pipe)
    (m : Procs)
    → p.sem_empty.count ≡ pos k
    → length bytes ≤ k
    → p.read_refs ≢ 0
    → Goes p c m
    → Flows len p m room ready written taken
    → (p' : Pipe) × (m' : Procs) × (write_loop i c bytes p m
        ≡ (returns (pos (i + length bytes)), p', m'))
      × Done len c room (written ++ bytes) taken p' m'
write_loop-Done {len} {room} {ready} {written} {taken} i c k [] p m e h opened g r = (
  p,
  m,
  unfold write_loop in ap (λ n. (returns (pos n), p, m)) (omega arith),
  (let r' : Flows len p m room ready (written ++ []) taken = rw (append-nil written) r in
      record { goes = g; ready = ready; flows = r'; flow = Flows-Flow _ _ _ p m _ _ r' }),
)
write_loop-Done i c zero (b ∷ bs) p m e h opened g r = absurd (omega arith)
write_loop-Done {len} {room} {ready} {written} {taken} i c (suc k) (b ∷ bs) p m e h opened g r =
    let p1 = record p { sem_empty = record p.sem_empty { count = pos k } } in
    let asked = asks_room c g.caller g.runs r in
    let claimed = rw (wait-pass p.sem_empty c k m e) at asked in
    let put = puts b (locks (sem_create (pos 1)) claimed) in
    let kept = put_keeps b c (freed p1) m g.runs in
    let goes : Goes (signal_full (put_byte b (freed p1)) m).0 c
        (signal_full (put_byte b (freed p1)) m).1 =
      record { lock = kept.2; caller = g.caller; runs = kept.3 } in
    let (p', m', run, done) =
      write_loop-Done (i + 1) c k bs (signal_full (put_byte b (freed p1)) m).0
        (signal_full (put_byte b (freed p1)) m).1 (ap (λ s. s.count) kept.0) (omega arith)
        (rw kept.1 opened) goes put in
    (
      p',
      m',
      write_loop-step i c b k bs p m e opened g.lock
          ∙ run
          ∙ ap (λ n. (returns (pos n), p', m')) (omega arith),
      rw (append_assoc written (b ∷ []) bs) at done,
    )

-- If the pipe has a reader, no other process holds its lock and as many slots are free as there are
-- bytes, then `pipe_write` returns their number without waiting, and has put them behind the bytes written before,
-- in their order: the ring then holds all that was written and not taken.
pub pipe_write-Done :
    {len room ready : ℕ} {written taken : List ℕ} (c k : ℕ) (bytes : List ℕ) (p : Pipe) (m : Procs)
    → p.sem_empty.count ≡ pos k
    → length bytes ≤ k
    → p.read_refs ≢ 0
    → Goes p c m
    → Flows len p m room ready written taken
    → (p' : Pipe) × (m' : Procs) × (pipe_write c bytes p m ≡ (returns (pos (length bytes)), p', m'))
      × Done len c room (written ++ bytes) taken p' m'
pipe_write-Done c k bytes p m e h opened g r =
    let (p', m', run, done) = write_loop-Done 0 c k bytes p m e h opened g r in
    (p', m', unfold pipe_write in ground (arith, opened, run), done)

positive-cases : (z : ℤ) → ((k : ℕ) × (z ≡ pos (suc k))) ⊎ (is_positive z ≡ false)
positive-cases (pos zero) = inr refl
positive-cases (pos (suc k)) = inl (k, refl)
positive-cases (negsuc k) = inr refl

try_write-some :
    (p : Pipe) (b k : ℕ) (m : Procs)
    → p.sem_empty.count ≡ pos (suc k)
    → p.read_refs ≢ 0
    → let p1 = record p { sem_empty = record p.sem_empty { count = pos k } } in
      let (p', m') = signal_full (put_byte b p1) m in pipe_try_write p b m ≡ (pos 1, p', m')
unfolding pipe_try_write
try_write-some p b k m e opened =
    rw (trywait-take p.sem_empty k e, pipe_try_write) (ground (arith, opened))

try_write-none :
    (p : Pipe) (b : ℕ) (m : Procs)
    → is_positive p.sem_empty.count ≡ false
    → p.read_refs ≢ 0
    → pipe_try_write p b m ≡ (pos 0, p, m)
unfolding pipe_try_write
try_write-none p b m e opened =
    rw (trywait-fail p.sem_empty e, pipe_try_write) (ground (arith, opened))

-- While the pipe has a reader, `pipe_try_write` puts its byte behind those written before and returns 1, or no slot is
-- free, and it returns 0 and changes nothing.
pub pipe_try_write_lem :
    {len room ready : ℕ} {written taken : List ℕ} (b : ℕ) (p : Pipe) (m : Procs)
    → p.read_refs ≢ 0
    → Flows len p m room ready written taken
    → ((p' : Pipe) × (m' : Procs) × (ready' : ℕ) × (pipe_try_write p b m ≡ (pos 1, p', m'))
        × Flows len p' m' room ready' (written ++ b ∷ []) taken
        × Flow len p' m' room ready' (written ++ b ∷ []) taken)
      ⊎ ((pipe_try_write p b m ≡ (pos 0, p, m)) × (is_positive p.sem_empty.count ≡ false))
pipe_try_write_lem b p m opened r = elim (positive-cases p.sem_empty.count) [
  | inl (k, e) ↦
      let p1 = record p { sem_empty = record p.sem_empty { count = pos k } } in
      let tried = tries_room r in
      let claimed = rw (trywait-take p.sem_empty k e) at tried in
      let after = puts b claimed in
      inl (
        (signal_full (put_byte b p1) m).0,
        (signal_full (put_byte b p1) m).1,
        _,
        try_write-some p b k m e opened,
        after,
        Flows-Flow _ _ _ _ _ _ _ after,
      )
  | inr e ↦ inr (try_write-none p b m e opened, e)
]
