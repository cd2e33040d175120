-- ===== src/Printk/Text.antt =====
-- The text of numbers, and the printers of src/printk.c that put it out.
use mathlib.Core.Option.{none}
use bayos_kernel.Common.{Bool, true, false, get_or, Option-cases}
use bayos_kernel.Printk.{
  Sinks, hex_digit, fill_buffer, negate, last_digit, tenth, at_least_ten, early, putchar,
  put_buffer, format_spec_x, format_spec_s, format_spec_d,
}
use bayos_kernel.Strings.{Bytes}
use bayos_kernel.Strings.Compares.{Holds}
use bayos_kernel.Common.{
  ℕ, zero, suc, ◌+◌, ◌/◌, ◌%◌, ◌^◌, ◌<◌, ◌≤◌, ◌≡◌, refl, sym, ap, ◌∙◌, some, List, [], ◌∷◌, ◌++◌,
  length, length-append, arith, ltb, ◌==◌, if◌then◌else◌, ℤ, pos, negsuc, inl, inr, Bool-cases,
}

-- the values of `int`, but for the smallest one
unfoldable pub is_int : ℤ → Bool
is_int (pos n) = ltb n (2 ^ 31)
is_int (negsuc n) = ltb (n + 1) (2 ^ 31)

-- The digits of a number to a base, the highest one first; none for 0.
unfoldable pub digits : (digit : ℕ → ℕ) (base fuel n : ℕ) → List ℕ
digits digit base zero n = []
digits digit base (suc fuel) n =
    let rest = digits digit base fuel (n / base) in
    if n == 0 then [] else rest ++ digit (n % base) ∷ []

unfoldable pub decimal_digit : ℕ → ℕ
decimal_digit d = b'0' + d

-- The text of a number: "0", or its digits from the highest one on.
unfoldable pub hex_text : ℕ → List ℕ
hex_text n = if n == 0 then b'0' ∷ [] else digits hex_digit 16 16 n

-- The digits to the base 16, by their value.
abbrev pub hex_digits : List ℕ
hex_digits =
    b'0' ∷ b'1' ∷ b'2' ∷ b'3' ∷ b'4' ∷ b'5' ∷ b'6' ∷ b'7' ∷ b'8' ∷ b'9' ∷ b'a' ∷ b'b' ∷ b'c' ∷ b'd'
    ∷ b'e' ∷ b'f' ∷ []

unfoldable pub hex_char : ℕ → ℕ
hex_char d = get_or hex_digits d 0

hex_digit-char : (d : ℕ) → d < 16 → hex_digit d ≡ hex_char d
unfolding hex_digit hex_char
hex_digit-char d h = ground (arith, h)

digits-hex : (fuel n : ℕ) → digits hex_digit 16 fuel n ≡ digits hex_char 16 fuel n
unfolding digits
digits-hex zero n = refl
digits-hex (suc fuel) n = rw (digits-hex fuel (n / 16), hex_digit-char (n % 16) (omega arith)) refl

-- The text to the base 16 with these digits.
unfoldable pub hex_shown : ℕ → List ℕ
hex_shown n = if n == 0 then b'0' ∷ [] else digits hex_char 16 16 n

pub hex_text-shown : (n : ℕ) → hex_text n ≡ hex_shown n
unfolding hex_text hex_shown
hex_text-shown n = rw (digits-hex 16 n) refl

unfoldable pub decimal_text : ℕ → List ℕ
decimal_text n = if n == 0 then b'0' ∷ [] else digits decimal_digit 10 10 n

unfoldable pub int_text : ℤ → List ℕ
int_text (pos n) = decimal_text n
int_text (negsuc n) = b'-' ∷ decimal_text (n + 1)

module _ {W : Type 0} (sinks : Sinks W) (type : ℕ) where
  -- The characters of a text, one after the other.
  unfoldable pub emit : List ℕ → W → W
  emit [] w = w
  emit (c ∷ cs) w = emit cs (putchar sinks type c w)

  -- Where the type sends a character, in this order: the port and the pipe take its lower byte, and the framebuffer, if
  -- there is one, takes it as it is.
  unfoldable pub early_outlet : List (ℕ → W → W)
  early_outlet = elim sinks.fb_default [ none ↦ [] | some f ↦ f ∷ [] ]

  unfoldable pub outlets : List (ℕ → W → W)
  unfolding early_outlet
  outlets =
      (if type % 2 == 1 then (λ c. sinks.serial (c % 256)) ∷ [] else [])
      ++ (if type / 2 % 2 == 1 then (λ c. sinks.print_pipe (c % 256)) ∷ [] else [])
      ++ (if type / 4 % 2 == 1 then early_outlet else [])

  unfoldable pub send : List (ℕ → W → W) → ℕ → W → W
  send [] c w = w
  send (o ∷ os) c w = send os c (o c w)

  -- The characters of a text, one after the other, each to all outlets.
  unfoldable pub print : List ℕ → W → W
  unfolding send outlets
  print [] w = w
  print (c ∷ cs) w = print cs (send outlets c w)

  send-append :
      (os ps : List (ℕ → W → W)) (c : ℕ) (w : W) → send (os ++ ps) c w ≡ send ps c (send os c w)
  unfolding send
  send-append [] ps c w = refl
  send-append (o ∷ os) ps c w = send-append os ps c (o c w)

  send-if :
      (b : Bool) (os : List (ℕ → W → W)) (c : ℕ) (w : W)
      → send (if b then os else []) c w ≡ (if b then send os c w else w)
  unfolding send
  send-if true os c w = refl
  send-if false os c w = refl

  early-send : (c : ℕ) (w : W) → early sinks type c w ≡ send early_outlet c w
  unfolding early send early_outlet
  early-send c w = elim (Option-cases sinks.fb_default) [
    | inl e ↦ rw e refl
    | inr (f, e) ↦ rw e refl
  ]

  putchar-send : (c : ℕ) (w : W) → putchar sinks type c w ≡ send outlets c w
  unfolding putchar outlets send
  putchar-send c w =
      let port : List (ℕ → W → W) = (λ c. sinks.serial (c % 256)) ∷ [] in
      let pipe : List (ℕ → W → W) = (λ c. sinks.print_pipe (c % 256)) ∷ [] in
      let one : List (ℕ → W → W) = if type % 2 == 1 then port else [] in
      let two : List (ℕ → W → W) = if type / 2 % 2 == 1 then pipe else [] in
      let three : List (ℕ → W → W) = if type / 4 % 2 == 1 then early_outlet else [] in
      rw
        (
          send-append (one ++ two) three c w,
          send-append one two c w,
          send-if (type % 2 == 1) port c w,
          send-if (type / 2 % 2 == 1) pipe c (if type % 2 == 1 then send port c w else w),
          send-if (type / 4 % 2 == 1) early_outlet c (
              if type / 2 % 2 == 1
              then send pipe c (if type % 2 == 1 then send port c w else w)
              else (if type % 2 == 1 then send port c w else w)),
          early-send c (
              if type / 2 % 2 == 1
              then send pipe c (if type % 2 == 1 then send port c w else w)
              else (if type % 2 == 1 then send port c w else w)),
        )
        refl

  pub emit-print : (cs : List ℕ) (w : W) → emit cs w ≡ print cs w
  unfolding emit print
  emit-print [] w = refl
  emit-print (c ∷ cs) w = ap (λ v. emit cs v) (putchar-send c w) ∙ emit-print cs (send outlets c w)

  pub emit-append : (cs ds : List ℕ) (w : W) → emit (cs ++ ds) w ≡ emit ds (emit cs w)
  unfolding emit
  emit-append [] ds w = refl
  emit-append (c ∷ cs) ds w = emit-append cs ds (putchar sinks type c w)

  put_buffer-digits :
      (fuel n : ℕ) (w : W)
      → (put_buffer sinks type (fill_buffer fuel n) w ≡ emit (digits hex_digit 16 fuel n) w)
        × (length (fill_buffer fuel n) ≡ length (digits hex_digit 16 fuel n))
  unfolding put_buffer fill_buffer digits emit
  put_buffer-digits zero n w = (refl, refl)
  put_buffer-digits (suc fuel) n w =
      let ih = put_buffer-digits fuel (n / 16) w in
      let ends = emit-append (digits hex_digit 16 fuel (n / 16)) (hex_digit (n % 16) ∷ []) w in
      let long = length-append (digits hex_digit 16 fuel (n / 16)) (hex_digit (n % 16) ∷ []) in
      elim (Bool-cases (n == 0)) [
        | inl e ↦ rw e (refl, refl)
        | inr e ↦ rw e (
          ap (λ v. putchar sinks type (hex_digit (n % 16)) v) ih.0 ∙ sym ends,
          omega (arith, ih.1, long),
        )
      ]

  pub format_spec_x_lem :
      (n : ℕ) (w : W) → format_spec_x sinks type n w ≡ (length (hex_text n), emit (hex_text n) w)
  unfolding format_spec_x hex_text emit
  format_spec_x_lem n w =
      let (out, long) = put_buffer-digits 16 n w in
      elim (Bool-cases (n == 0)) [ inl e ↦ rw e refl | inr e ↦ rw (e, out, long) refl ]

  pub format_spec_s_lem :
      (fuel str : ℕ) (m : Bytes) (cs : List ℕ) (w : W)
      → length cs < fuel
      → Holds m str cs
      → format_spec_s sinks type fuel str m w ≡ some (length cs, emit cs w)
  unfolding format_spec_s emit Holds
  format_spec_s_lem zero str m cs w h c = absurd (omega arith)
  format_spec_s_lem (suc fuel) str m [] w h c = ground (arith, c)
  format_spec_s_lem (suc fuel) str m (c ∷ cs) w h (e, p, rest) =
      let ih = format_spec_s_lem fuel (str + 1) m cs (putchar sinks type c w) (omega arith) rest in
      rw e (rw ih (ground (arith, p)))

  pub format_pos_small :
      (fuel n : ℕ) (w : W)
      → n < 10
      → format_spec_d sinks type (suc fuel) (pos n) w ≡ (1, putchar sinks type (b'0' + n) w)
  unfolding format_spec_d last_digit at_least_ten
  format_pos_small fuel n w h = ground (arith, h)

  pub format_pos_large :
      (fuel n : ℕ) (w : W)
      → 10 ≤ n
      → let (more, w1) = format_spec_d sinks type fuel (pos (n / 10)) w in
        format_spec_d sinks type (suc fuel) (pos n) w
        ≡ (0 + more + 1, putchar sinks type (b'0' + n % 10) w1)
  unfolding format_spec_d last_digit at_least_ten tenth
  format_pos_large fuel n w h = ground (arith, h)

  pub format_negsuc :
      (fuel n : ℕ) (w : W)
      → n + 1 < 2 ^ 31
      → let (count, w1) =
          format_spec_d sinks type (suc fuel) (pos (n + 1)) (putchar sinks type b'-' w) in
        format_spec_d sinks type (suc fuel) (negsuc n) w ≡ (1 + count, w1)
  unfolding format_spec_d negate at_least_ten
  format_negsuc fuel n w h = ground (arith, h)
