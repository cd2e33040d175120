-- ===== src/Printk/Numbers.antt =====
-- The text of a number gives the number back.
use bayos_kernel.Common.{length}
use bayos_kernel.Common.{inr}
use bayos_kernel.Common.{inl, true}
use bayos_kernel.Printk.{Sinks, hex_digit, format_spec_x, format_spec_d}
use bayos_kernel.Printk.Decimal.{format_spec_d_lem}
use bayos_kernel.Printk.Text.{
  emit, format_spec_x_lem, digits, decimal_digit, hex_text, decimal_text, int_text, is_int,
}
use native.Mathlib.Nat.{pow-zero, pow-suc, div-add-mod', div-lt_iff_lt-mul, mod-lt}
use bayos_kernel.Common.{
  ℕ, zero, suc, ◌+◌, ◌-◌, ◌*◌, ◌/◌, ◌%◌, ◌^◌, ◌<◌, ◌≤◌, ◌≡◌, refl, sym, ap, ◌∙◌, List, [], ◌∷◌,
  ◌++◌, arith, ltb, ◌==◌, if◌then◌else◌, ℤ, pos, negsuc, u64_mod, Bool-cases, ==_iff,
}

-- The number that a text stands for, to a base, from the highest digit on.
pub read_number : (value : ℕ → ℕ) (base acc : ℕ) → List ℕ → ℕ
read_number value base acc [] = acc
read_number value base acc (c ∷ cs) = read_number value base (acc * base + value c) cs

pub hex_value : ℕ → ℕ
hex_value c = if ltb c b'a' then c - b'0' else c - b'a' + 10

pub decimal_value : ℕ → ℕ
decimal_value c = c - b'0'

pub read_int : List ℕ → ℤ
read_int [] = pos 0
read_int (c ∷ cs) =
    if c == b'-'
    then negsuc (read_number decimal_value 10 0 cs - 1)
    else pos (read_number decimal_value 10 0 (c ∷ cs))

read-append :
    (value : ℕ → ℕ) (base acc : ℕ) (cs : List ℕ) (c : ℕ)
    → read_number value base acc (cs ++ c ∷ []) ≡ read_number value base acc cs * base + value c
unfolding read_number
read-append value base acc [] c = refl
read-append value base acc (b ∷ cs) c = read-append value base (acc * base + value b) cs c

digits-read :
    (value digit : ℕ → ℕ) (base fuel n : ℕ)
    → 0 < base
    → ((d : ℕ) → d < base → value (digit d) ≡ d)
    → n < base ^ fuel
    → read_number value base 0 (digits digit base fuel n) ≡ n
unfolding digits read_number
digits-read value digit base zero n b v h = omega (arith, h, pow-zero base)
digits-read value digit base (suc fuel) n b v h =
    let less =
      (div-lt_iff_lt-mul {k = base} {x = n} {y = base ^ fuel} b).1
        (omega (arith, pow-suc base fuel, h)) in
    let ih = digits-read value digit base fuel (n / base) b v less in
    let last = read-append value base 0 (digits digit base fuel (n / base)) (digit (n % base)) in
    elim (Bool-cases (n == 0)) [
      | inl e ↦ rw e (sym ((==_iff n 0).0 e))
      | inr e ↦ rw (e, last, ih, v (n % base) (mod-lt n b)) (div-add-mod' n base)
    ]

hex_value-digit : (d : ℕ) → d < 16 → hex_value (hex_digit d) ≡ d
unfolding hex_value hex_digit
hex_value-digit d h = ground (arith, h)

pub hex_text-read : (n : ℕ) → n < u64_mod → read_number hex_value 16 0 (hex_text n) ≡ n
unfolding hex_text read_number hex_value
hex_text-read n h =
    let whole = digits-read hex_value hex_digit 16 16 n (omega arith) hex_value-digit h in
    elim (Bool-cases (n == 0)) [
      | inl e ↦ rw e (omega (arith, (==_iff n 0).0 e))
      | inr e ↦ rw e whole
    ]

decimal_text-read : (n : ℕ) → n < 10 ^ 10 → read_number decimal_value 10 0 (decimal_text n) ≡ n
unfolding decimal_text read_number decimal_value decimal_digit
decimal_text-read n h =
    let whole =
      digits-read decimal_value decimal_digit 10 10 n (omega arith) (λ d l. omega arith) h in
    elim (Bool-cases (n == 0)) [
      | inl e ↦ rw e (omega (arith, (==_iff n 0).0 e))
      | inr e ↦ rw e whole
    ]

-- no sign among the characters
Unsigned : List ℕ → Type 0
Unsigned [] = Unit
Unsigned (c ∷ cs) = (b'0' ≤ c) × Unsigned cs

append-Unsigned : (cs : List ℕ) (c : ℕ) → Unsigned cs → b'0' ≤ c → Unsigned (cs ++ c ∷ [])
unfolding Unsigned
append-Unsigned [] c u h = (h, tt)
append-Unsigned (b ∷ cs) c (k, u) h = (k, append-Unsigned cs c u h)

digits-Unsigned : (fuel n : ℕ) → Unsigned (digits decimal_digit 10 fuel n)
unfolding digits Unsigned decimal_digit
digits-Unsigned zero n = tt
digits-Unsigned (suc fuel) n =
    let all =
      append-Unsigned (digits decimal_digit 10 fuel (n / 10)) (b'0' + n % 10)
        (digits-Unsigned fuel (n / 10)) (omega arith) in
    elim (Bool-cases (n == 0)) [ inl e ↦ rw e tt | inr e ↦ rw e all ]

decimal_text-Unsigned : (n : ℕ) → Unsigned (decimal_text n)
unfolding decimal_text Unsigned
decimal_text-Unsigned n =
    let all = digits-Unsigned 10 n in
    elim (Bool-cases (n == 0)) [ inl e ↦ rw e (omega arith, tt) | inr e ↦ rw e all ]

read_int-Unsigned :
    (cs : List ℕ) → Unsigned cs → read_int cs ≡ pos (read_number decimal_value 10 0 cs)
unfolding read_int Unsigned read_number
read_int-Unsigned [] u = refl
read_int-Unsigned (c ∷ cs) (h, u) = ground (arith, h)

pub int_text-read : (z : ℤ) → is_int z ≡ true → read_int (int_text z) ≡ z
unfolding int_text read_int is_int
int_text-read (pos n) h =
    read_int-Unsigned (decimal_text n) (decimal_text-Unsigned n)
    ∙ ap (λ k. pos k) (decimal_text-read n (ground (arith, h)))
int_text-read (negsuc n) h =
    ap (λ k. negsuc (k - 1)) (decimal_text-read (n + 1) (ground (arith, h)))
    ∙ ap negsuc (omega arith)

module _ {W : Type 0} (sinks : Sinks W) (type : ℕ) where
  -- `format_spec_x` puts out a text from which the number can be read back, and returns its length.
  pub format_spec_x-read :
      (n : ℕ) (w : W)
      → n < u64_mod
      → (shown : List ℕ) × (format_spec_x sinks type n w ≡ (length shown, emit sinks type shown w))
        × (read_number hex_value 16 0 shown ≡ n)
  format_spec_x-read n w h = (hex_text n, format_spec_x_lem sinks type n w, hex_text-read n h)

  -- `format_spec_d` of any `int` but the smallest one puts out a text from which the number can be read
  -- back, and returns its length; calls ten deep are enough.
  pub format_spec_d-read :
      (z : ℤ) (w : W)
      → is_int z ≡ true
      → (shown : List ℕ) × (format_spec_d sinks type 10 z w
          ≡ (length shown, emit sinks type shown w))
        × (read_int shown ≡ z)
  format_spec_d-read z w h = (int_text z, format_spec_d_lem sinks type z w h, int_text-read z h)
