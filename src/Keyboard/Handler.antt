-- ===== src/Keyboard/Handler.antt =====
-- `keyboard_handler` of src/keyboard.c as a writer of its pipe.
use bayos_kernel.Keyboard.{scancode_to_ascii, keyboard_handler}
use bayos_kernel.Sched.{Procs}
use bayos_kernel.Pipe.{Pipe, pipe_try_write}
use bayos_kernel.Pipe.Runs.{Flow, Flows}
use bayos_kernel.Pipe.Writes.{pipe_try_write_lem}
use bayos_kernel.Common.{
  ℕ, ◌≡◌, ◌≢◌, ◌⊎◌, inl, inr, false, List, [], ◌∷◌, ◌++◌, arith, ℤ, Bool-cases, ◌==◌, ==_iff,
  is_positive,
}

handler-ignores :
    (s : ℕ) (p : Pipe) (m : Procs) → scancode_to_ascii s ≡ 0 → keyboard_handler s p m ≡ (p, m)
unfolding keyboard_handler
handler-ignores s p m e = ground (arith, e)

handler-writes :
    {r : ℤ} {p' : Pipe} {m' : Procs} (s : ℕ) (p : Pipe) (m : Procs)
    → scancode_to_ascii s ≢ 0
    → pipe_try_write p (scancode_to_ascii s) m ≡ (r, p', m')
    → keyboard_handler s p m ≡ (p', m')
unfolding keyboard_handler
handler-writes s p m ne e = rw (e, keyboard_handler) (ground (arith, ne))

-- While the keyboard's pipe has a reader, and none of its other calls is between its two writes to the ring,
-- `keyboard_handler` of a key that types a byte puts this byte behind those written before: the ring then holds all that
-- was written and not taken. It changes nothing if the key types none, or no slot of the pipe is free.
pub keyboard_handler_lem :
    {len room ready : ℕ} {written taken : List ℕ} (s : ℕ) (p : Pipe) (m : Procs)
    → p.read_refs ≢ 0
    → Flows len p m room ready written taken
    → ((p' : Pipe) × (m' : Procs) × (ready' : ℕ) × (keyboard_handler s p m ≡ (p', m'))
        × Flows len p' m' room ready' (written ++ scancode_to_ascii s ∷ []) taken
        × Flow len p' m' room ready' (written ++ scancode_to_ascii s ∷ []) taken)
      ⊎ ((keyboard_handler s p m ≡ (p, m))
          × ((scancode_to_ascii s ≡ 0) ⊎ (is_positive p.sem_empty.count ≡ false)))
keyboard_handler_lem s p m opened r = elim (Bool-cases (scancode_to_ascii s == 0)) [
  | inl t ↦ let e = (==_iff (scancode_to_ascii s) 0).0 t in inr (handler-ignores s p m e, inl e)
  | inr f ↦
      let ne : scancode_to_ascii s ≢ 0 = ground (arith, f) in
      elim (pipe_try_write_lem (scancode_to_ascii s) p m opened r) [
        | inl (p', m', ready', run, r', f) ↦
            inl (p', m', ready', handler-writes s p m ne run, r', f)
        | inr (run, full) ↦ inr (handler-writes s p m ne run, inr full)
      ]
]
