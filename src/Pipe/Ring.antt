-- ===== src/Pipe/Ring.antt =====
-- The ring of src/pipe.c as the list of bytes that it holds.
use native.Mathlib.Nat.{mod-add-mod, mod-eq_of_lt, mod-eq-sub-mod}
use bayos_kernel.Pipe.{Pipe, put_byte, take_byte}
use bayos_kernel.Common.{
  ℕ, suc, ◌+◌, ◌-◌, ◌%◌, ◌≤◌, ◌<◌, ◌≡◌, sym, ap, ◌∙◌, ◌≢◌, List, [], ◌∷◌, ◌++◌, length,
  length-append, arith, Bool-cases, ltb, inl, inr,
}

-- The buffer holds the bytes from position `i` on, going round behind its end.
unfoldable pub Stored : (buffer : ℕ → ℕ) (len i : ℕ) → List ℕ → Type 0
Stored buffer len i [] = Unit
Stored buffer len i (b ∷ bs) = (buffer i ≡ b) × Stored buffer len ((i + 1) % len) bs

-- The positions of the pipe, and the bytes between them.
pub record Holds (p : Pipe) (len : ℕ) (bytes : List ℕ) : Type 0 where
  pub size : p.buffer_len ≡ len
  pub reads : p.read_pos < len
  pub writes : p.write_pos ≡ (p.read_pos + length bytes) % len
  pub stored : Stored p.buffer len p.read_pos bytes

-- Up to `len - 1` positions further is another position.
round_ne : (len i k : ℕ) → i < len → suc k < len → (i + suc k) % len ≢ i
round_ne len i k h g = elim (Bool-cases (ltb (i + suc k) len)) [
  | inl t ↦ omega (arith, mod-eq_of_lt {n = i + suc k} {m = len} (ground (arith, t)))
  | inr f ↦
      let past : len ≤ i + suc k = ground (arith, f) in
      omega (
        arith,
        past,
        mod-eq-sub-mod {n = i + suc k} {m = len} past,
        mod-eq_of_lt {n = i + suc k - len} {m = len} (omega arith),
      )
]

step_mod : (len i k : ℕ) → (i + suc k) % len ≡ ((i + 1) % len + k) % len
step_mod len i k = rw mod-add-mod (ap (λ j. j % len) (omega arith))

-- A byte written behind the bytes that are stored is stored behind them.
Stored-put :
    (buffer buffer' : ℕ → ℕ) (len i j b : ℕ) (bytes : List ℕ)
    → i < len
    → length bytes < len
    → j ≡ (i + length bytes) % len
    → buffer' j ≡ b
    → ((k : ℕ) → k ≢ j → buffer' k ≡ buffer k)
    → Stored buffer len i bytes
    → Stored buffer' len i (bytes ++ b ∷ [])
unfolding Stored
Stored-put buffer buffer' len i j b [] h room e here other s =
    (ap buffer' (sym (mod-eq_of_lt h) ∙ sym (e ∙ ap (λ k. k % len) (omega arith))) ∙ here, tt)
Stored-put buffer buffer' len i j b (c ∷ cs) h room e here other s = (
  other i (λ g. round_ne len i (length cs) h (omega arith) (sym e ∙ sym g)) ∙ s.0,
  Stored-put buffer buffer' len ((i + 1) % len) j b cs (omega arith) (omega arith)
      (e ∙ step_mod len i (length cs)) here other s.1,
)

pub put_byte-Holds :
    (p : Pipe) (len b : ℕ) (bytes : List ℕ)
    → length bytes < len
    → Holds p len bytes
    → Holds (put_byte b p) len (bytes ++ b ∷ [])
unfolding put_byte
put_byte-Holds p len b bytes room h = record {
  size = h.size;
  reads = h.reads;
  writes =
      ap (λ n. (p.write_pos + 1) % n) h.size
      ∙ ap (λ w. (w + 1) % len) h.writes
      ∙ mod-add-mod (p.read_pos + length bytes) len 1
      ∙ ap (λ k. k % len) (omega (arith, length-append bytes (b ∷ [])));
  stored =
      Stored-put p.buffer (put_byte b p).buffer len p.read_pos p.write_pos b bytes h.reads room
        h.writes (ground arith) (λ k ne. ground (arith, ne)) h.stored;
}

pub take_byte-Holds :
    (p : Pipe) (len b : ℕ) (bytes : List ℕ)
    → Holds p len (b ∷ bytes)
    → ((take_byte p).0 ≡ b) × Holds (take_byte p).1 len bytes
unfolding take_byte Stored
take_byte-Holds p len b bytes h = (
  h.stored.0,
  record {
    size = h.size;
    reads = rw h.size (omega (arith, h.reads));
    writes =
        h.writes
        ∙ step_mod len p.read_pos (length bytes)
        ∙ ap (λ n. ((p.read_pos + 1) % n + length bytes) % len) (sym h.size);
    stored = rw h.size h.stored.1;
  },
)
