-- ===== src/Pipe/Steps.antt =====
-- What the steps of a pipe keep, by the two semaphores that they touch.
use bayos_kernel.Pipe.Runs.{Flow, append_assoc}
use bayos_kernel.Common.{ℕ_discrete}
use bayos_kernel.Sched.{ProcessStatus, Procs}
use bayos_kernel.Sched.Chains.{Without}
use bayos_kernel.Sem.{Semaphore, sem_wait, sem_signal}
use bayos_kernel.Sem.Frame.{Disjoint, sem_wait-beside, sem_signal-beside}
use bayos_kernel.Sem.Mutex.{runs-Without}
use bayos_kernel.Sem.Claims.{Claims, sem_wait-Claims, sem_signal-Claims}
use bayos_kernel.Pipe.{Pipe, put_byte, take_byte, signal_full, signal_empty}
use bayos_kernel.Pipe.Ring.{put_byte-Holds, take_byte-Holds}
use bayos_kernel.Common.{
  ℕ, suc, ◌+◌, ◌-◌, ◌<◌, ◌≡◌, sym, ap, ◌∙◌, ◌≢◌, inl, inr, List, [], ◌∷◌, ◌++◌, length,
  length-append, arith, is_negative, if◌then◌else◌,
}

swap : (qs rs : List ℕ) → Disjoint qs rs → Disjoint rs qs
unfolding Disjoint
swap qs rs d a = elim (d a) [ inl w ↦ inr w | inr w ↦ inl w ]

-- the queue of one semaphore grows by a process that is not in the other, or loses some
grown-Disjoint :
    (qs qs' rs : List ℕ) (c : ℕ)
    → ((a : ℕ) → a ≢ c → Without a qs → Without a qs')
    → Without c rs
    → Disjoint qs rs
    → Disjoint qs' rs
unfolding Disjoint
grown-Disjoint qs qs' rs c keep w d a = elim (ℕ_discrete a c) [
  | yes e ↦ inr (rw e w)
  | no ne ↦ elim (d a) [ inl v ↦ inl (keep a ne v) | inr v ↦ inr v ]
]

shrunk-Disjoint :
    (qs qs' rs : List ℕ)
    → ((a : ℕ) → Without a qs → Without a qs')
    → Disjoint qs rs
    → Disjoint qs' rs
unfolding Disjoint
shrunk-Disjoint qs qs' rs keep d a = elim (d a) [ inl v ↦ inl (keep a v) | inr v ↦ inr v ]

Claims-wait_beside :
    {total held k n : ℕ} (s t : Semaphore) (c : ℕ) (m : Procs) (qs rs : List ℕ)
    → Claims k n s m qs
    → Claims total held t m rs
    → Disjoint qs rs
    → Without c rs
    → Claims total held t (sem_wait s c m).1 rs
Claims-wait_beside s t c m qs rs a b d w = record {
  left = b.left;
  is = sem_wait-beside s t c m a.left b.left qs rs a.is b.is d w;
  sum = b.sum;
}

Claims-signal_beside :
    {total held k n : ℕ} (s t : Semaphore) (m : Procs) (qs rs : List ℕ)
    → Claims k n s m qs
    → Claims total held t m rs
    → Disjoint qs rs
    → Claims total held t (sem_signal s m).1 rs
Claims-signal_beside s t m qs rs a b d = record {
  left = b.left;
  is = sem_signal-beside s t m a.left b.left qs rs a.is b.is d;
  sum = b.sum;
}

module _ {len room ready : ℕ} {written taken : List ℕ} where
  pub after_room :
      (p : Pipe) (m : Procs) (c : ℕ)
      → 0 < c
      → (m c).status ≢ ProcessStatus.blocked
      → Flow len p m room ready written taken
      → Flow len
          (record p { sem_empty = (sem_wait p.sem_empty c m).0 })
          (sem_wait p.sem_empty c m).1
          (if is_negative (sem_wait p.sem_empty c m).0.count then room else suc room)
          ready
          written
          taken
  after_room p m c h ne f =
      let w = runs-Without m c f.writers ne f.empty.is.blocked in
      let r = runs-Without m c f.readers ne f.full.is.blocked in
      let (qs, cl, keep) = sem_wait-Claims p.sem_empty m c f.writers h w f.empty in
      record {
        bytes = f.bytes;
        order = f.order;
        holds = record {
          size = f.holds.size;
          reads = f.holds.reads;
          writes = f.holds.writes;
          stored = f.holds.stored;
        };
        slots = f.slots;
        sum = f.sum;
        writers = qs;
        readers = f.readers;
        apart = grown-Disjoint f.writers qs f.readers c keep r f.apart;
        empty = cl;
        full =
            Claims-wait_beside p.sem_empty p.sem_full c m f.writers f.readers f.empty f.full f.apart
              r;
      }

  pub after_byte :
      (p : Pipe) (m : Procs) (c : ℕ)
      → 0 < c
      → (m c).status ≢ ProcessStatus.blocked
      → Flow len p m room ready written taken
      → Flow len
          (record p { sem_full = (sem_wait p.sem_full c m).0 })
          (sem_wait p.sem_full c m).1
          room
          (if is_negative (sem_wait p.sem_full c m).0.count then ready else suc ready)
          written
          taken
  after_byte p m c h ne f =
      let w = runs-Without m c f.writers ne f.empty.is.blocked in
      let r = runs-Without m c f.readers ne f.full.is.blocked in
      let back = swap f.writers f.readers f.apart in
      let (qs, cl, keep) = sem_wait-Claims p.sem_full m c f.readers h r f.full in
      record {
        bytes = f.bytes;
        order = f.order;
        holds = record {
          size = f.holds.size;
          reads = f.holds.reads;
          writes = f.holds.writes;
          stored = f.holds.stored;
        };
        slots = f.slots;
        sum = f.sum;
        writers = f.writers;
        readers = qs;
        apart = swap qs f.writers (grown-Disjoint f.readers qs f.writers c keep w back);
        empty =
            Claims-wait_beside p.sem_full p.sem_empty c m f.readers f.writers f.full f.empty back w;
        full = cl;
      }

  pub after_put :
      (p : Pipe) (m : Procs) (b : ℕ)
      → Flow len p m (suc room) ready written taken
      → Flow len
          (signal_full (put_byte b p) m).0
          (signal_full (put_byte b p) m).1
          room
          (if is_negative p.sem_full.count then suc ready else ready)
          (written ++ b ∷ [])
          taken
  unfolding signal_full put_byte
  after_put p m b f =
      let more = length-append f.bytes (b ∷ []) in
      let one_more : Claims (length (f.bytes ++ b ∷ [])) (suc ready) p.sem_full m f.readers =
        record { left = f.full.left; is = f.full.is; sum = omega (arith, f.full.sum, more) } in
      let (qs, cl, keep) = sem_signal-Claims p.sem_full m f.readers one_more in
      let stored = put_byte-Holds p len b f.bytes (omega (arith, f.sum, f.empty.sum)) f.holds in
      let back = swap f.writers f.readers f.apart in
      let beside =
        Claims-signal_beside p.sem_full p.sem_empty m f.readers f.writers f.full f.empty back in
      record {
        bytes = f.bytes ++ b ∷ [];
        order = ap (λ t. t ++ b ∷ []) f.order ∙ append_assoc taken f.bytes (b ∷ []);
        holds = record {
          size = stored.size;
          reads = stored.reads;
          writes = stored.writes;
          stored = stored.stored;
        };
        slots = f.slots - 1;
        sum = omega (arith, f.sum, f.empty.sum, more);
        writers = f.writers;
        readers = qs;
        apart = swap qs f.writers (shrunk-Disjoint f.readers qs f.writers keep back);
        empty = record { left = beside.left; is = beside.is; sum = omega (arith, beside.sum) };
        full = cl;
      }

  pub after_take :
      (p : Pipe) (m : Procs) (b : ℕ) (bs : List ℕ) (f : Flow len p m room (suc ready) written taken)
      → f.bytes ≡ b ∷ bs
      → Flow len
          (signal_empty (take_byte p).1 m).0
          (signal_empty (take_byte p).1 m).1
          (if is_negative p.sem_empty.count then suc room else room)
          ready
          written
          (taken ++ (take_byte p).0 ∷ [])
  unfolding signal_empty take_byte
  after_take p m b bs f e =
      let size : length f.bytes ≡ suc (length bs) = ap length e in
      let one_more : Claims (f.slots + 1) (suc room) p.sem_empty m f.writers = record {
        left = f.empty.left;
        is = f.empty.is;
        sum = omega (arith, f.empty.sum);
      } in
      let (qs, cl, keep) = sem_signal-Claims p.sem_empty m f.writers one_more in
      let (out, stored) = take_byte-Holds p len b bs (rw (sym e) f.holds) in
      let beside =
        Claims-signal_beside p.sem_empty p.sem_full m f.writers f.readers f.empty f.full f.apart in
      record {
        bytes = bs;
        order =
            f.order
            ∙ ap (λ t. taken ++ t) e
            ∙ ap (λ x. taken ++ x ∷ bs) (sym out)
            ∙ sym (append_assoc taken (p.buffer p.read_pos ∷ []) bs);
        holds = record {
          size = stored.size;
          reads = stored.reads;
          writes = stored.writes;
          stored = stored.stored;
        };
        slots = f.slots + 1;
        sum = omega (arith, f.sum, size);
        writers = qs;
        readers = f.readers;
        apart = shrunk-Disjoint f.writers qs f.readers keep f.apart;
        empty = cl;
        full = record { left = beside.left; is = beside.is; sum = omega (arith, beside.sum, size) };
      }
