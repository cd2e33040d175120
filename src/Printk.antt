-- ===== src/Printk.antt =====
-- src/printk.c and include/printk.h: formatted output.
pub mod Text
pub mod Numbers
pub mod Decimal
pub mod Formats
mod Tests
use bayos_kernel.Common.{false}
use bayos_kernel.Common.{Bool}
use bayos_kernel.Strings.{Bytes}
use bayos_kernel.Common.{
  ℕ, zero, suc, ◌+◌, ◌-◌, ◌/◌, ◌%◌, ◌^◌, Option, none, some, List, [], ◌∷◌, length, ltb, leb, ◌==◌,
  if◌then◌else◌, ℤ, pos, negsuc, is_negative, ◌>>=◌,
}

-- Where characters go to, on a state `W`: a port of the emulator, the pipe of the print process, and
-- the framebuffer of the early boot, if there is one.
pub record Sinks (W : Type 0) : Type 0 where
  pub serial : ℕ → W → W
  pub print_pipe : ℕ → W → W
  pub fb_default : Option (ℕ → W → W)

-- `digits[val]` of `format_spec_x`
pub hex_digit : ℕ → ℕ
hex_digit d = if ltb d 10 then b'0' + d else b'a' + (d - 10)

-- The first loop of `format_spec_x`: what it puts in the buffer. The fuel is the size of the buffer.
pub fill_buffer : (fuel val : ℕ) → List ℕ
unfolding hex_digit
fill_buffer zero val = []
fill_buffer (suc fuel) val =
    let rest = fill_buffer fuel (val / 16) in if val == 0 then [] else hex_digit (val % 16) ∷ rest

-- `-number` of an `int`: the smallest one stays as it is.
pub negate : ℤ → ℤ
negate (pos zero) = pos 0
negate (pos (suc n)) = negsuc n
negate (negsuc n) = if n == 2 ^ 31 - 1 then negsuc n else pos (n + 1)

-- `'0' + number % 10`, with the sign of the number
pub last_digit : ℤ → ℕ
last_digit (pos n) = b'0' + n % 10
last_digit (negsuc n) = b'0' - (n + 1) % 10

-- `number >= 10`, and `number / 10` of such a number
pub at_least_ten : ℤ → Bool
at_least_ten (pos n) = leb 10 n
at_least_ten (negsuc n) = false

pub tenth : ℤ → ℕ
tenth (pos n) = n / 10
tenth (negsuc n) = 0

-- `va_arg(args, int)`
pub to_int : ℕ → ℤ
to_int n = if ltb (n % 2 ^ 32) (2 ^ 31) then pos (n % 2 ^ 32) else negsuc (2 ^ 32 - 1 - n % 2 ^ 32)

module _ {W : Type 0} (sinks : Sinks W) (type : ℕ) where
  pub early : ℕ → W → W
  early c w = elim sinks.fb_default [ none ↦ w | some f ↦ f c w ]

  pub putchar : ℕ → W → W
  putchar c w =
      let w1 = if type % 2 == 1 then sinks.serial (c % 256) w else w in
      let w2 = if type / 2 % 2 == 1 then sinks.print_pipe (c % 256) w1 else w1 in
      if type / 4 % 2 == 1 then early c w2 else w2

  -- The second loop of `format_spec_x`, from the end of the buffer to its front.
  pub put_buffer : List ℕ → W → W
  put_buffer [] w = w
  put_buffer (c ∷ cs) w = putchar c (put_buffer cs w)

  pub format_spec_x : (val : ℕ) → W → ℕ × W
  format_spec_x val w =
      let buffer = fill_buffer 16 val in
      if val == 0 then (1, putchar b'0' w) else (length buffer, put_buffer buffer w)

  -- `format_spec_s`, on fuel: `none` means that it ran out.
  pub format_spec_s : (fuel str : ℕ) → Bytes → W → Option (ℕ × W)
  format_spec_s zero str m w = none
  format_spec_s (suc fuel) str m w =
      let rest = format_spec_s fuel (str + 1) m (putchar (m str) w) in
      if m str == 0 then some (0, w) else elim rest [ none ↦ none | some r ↦ some (r.0 + 1, r.1) ]

  -- `format_spec_d`, on fuel for its calls of itself.
  pub format_spec_d : (fuel : ℕ) (val : ℤ) → W → ℕ × W
  format_spec_d zero val w = (0, w)
  format_spec_d (suc fuel) val w =
      let number = if is_negative val then negate val else val in
      let count = if is_negative val then 1 else 0 in
      let w0 = if is_negative val then putchar b'-' w else w in
      let (more, w1) = format_spec_d fuel (pos (tenth number)) w0 in
      if at_least_ten number
      then (count + more + 1, putchar (last_digit number) w1)
      else (count + 1, putchar (last_digit number) w0)

  -- The body of the loop of `printk` at the byte `c` with the argument `args i` next: the characters that it counts,
  -- the arguments that it takes, the bytes that it goes on by. `fuel` is that of the string of a "%s"; an `int` has at most ten digits.
  pub put_piece : (fuel c i : ℕ) (args : ℕ → ℕ) → Bytes → W → Option (ℕ × ℕ × ℕ × W)
  put_piece fuel c i args m w =
      if m c == b'%'
      then (if m (c + 1) == b'x'
          then (let (n, w1) = format_spec_x (args i) w in some (n, 1, 2, w1))
          else if m (c + 1) == b'%'
          then some (1, 0, 2, putchar b'%' w)
          else if m (c + 1) == b'c'
          then some (1, 1, 2, putchar (args i % 2 ^ 32) w)
          else if m (c + 1) == b's'
          then (do (n, w1) ← format_spec_s fuel (args i) m w; some (n, 1, 2, w1))
          else if m (c + 1) == b'd'
          then (let (n, w1) = format_spec_d 10 (to_int (args i)) w in some (n, 1, 2, w1))
          else some (0, 0, 2, w))
      else some (1, 0, 1, putchar (m c) w)

  -- The loop of `printk` from the byte `c` on. A "%" at the end of the string takes the loop past its end.
  pub printk_loop : (rounds fuel c i : ℕ) (args : ℕ → ℕ) → Bytes → W → Option (ℕ × W)
  unfolding put_piece
  printk_loop zero fuel c i args m w = none
  printk_loop (suc rounds) fuel c i args m w = if m c == 0 then some (0, w) else (do
    (n, used, width, w1) ← put_piece fuel c i args m w
    (rest, w2) ← printk_loop rounds fuel (c + width) (i + used) args m w1
    some (n + rest, w2))

  pub printk : (fuel fmt : ℕ) (args : ℕ → ℕ) → Bytes → W → Option (ℕ × W)
  unfolding printk_loop
  printk fuel fmt args m w = if fmt == 0 then some (0, w) else printk_loop fuel fuel fmt 0 args m w
