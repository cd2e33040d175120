-- ===== src/Framebuffer/Screen.antt =====
-- The screen from `framebuffer_init` to the last byte that `framebuffer_print_process` has printed.
use bayos_kernel.Framebuffer.{Framebuffer, clear, putchar, framebuffer_init, print_bytes}
use bayos_kernel.Framebuffer.Bounds.{
  IsMode, IsCursor, Inside, Inside-refl, Inside-trans, clear-Inside, Inside-IsMode, putchar-Put,
}
use bayos_kernel.Common.{ℕ, ◌+◌, ◌-◌, ◌^◌, ◌<◌, ◌≡◌, List, [], ◌∷◌, length, arith}

-- What a run leaves: the mode, the memory behind the screen, and a cursor for the next character.
pub record Printed (n : ℕ) (a b : Framebuffer) : Type 0 where
  pub inside : Inside a b
  pub mode : IsMode b
  pub cursor : IsCursor n b

print_bytes-Printed :
    (font : ℕ → ℕ) (text : List ℕ) (n k : ℕ) (fb : Framebuffer)
    → n + length text ≡ k
    → k < 2 ^ 32 - 1
    → IsMode fb
    → IsCursor n fb
    → Printed k fb (print_bytes font text fb)
unfolding print_bytes
print_bytes-Printed font [] n k fb e few m c = record {
  inside = Inside-refl fb;
  mode = m;
  cursor = omega (arith, e, c.few, c.left, c.top);
}
print_bytes-Printed font (x ∷ xs) n k fb e few m c =
    let p = putchar-Put font n fb x m c in
    let rest =
      print_bytes-Printed font xs (n + 1) k (putchar font fb x) (omega (arith, e)) few p.mode
        (p.cursor (omega (arith, e, few))) in
    record { inside = Inside-trans p.inside rest.inside; mode = rest.mode; cursor = rest.cursor }

-- The screen that the bootloader reports, before `framebuffer_init`.
abbrev pub reported : (width height bpp pitch : ℕ) (buffer : ℕ → ℕ) → Framebuffer
reported width height bpp pitch buffer = record {
  width = width;
  height = height;
  bpp = bpp;
  pitch = pitch;
  x_pos = 0;
  y_pos = 0;
  buffer = buffer;
}

-- From `framebuffer_init` on, a text of fewer than 2 ^ 32 - 1 bytes is printed without a write behind the last line of the
-- screen, and leaves the mode and a cursor for the next character.
pub framebuffer_init-Printed :
    (font : ℕ → ℕ) (text : List ℕ) (width height bpp pitch : ℕ) (buffer : ℕ → ℕ)
    → length text < 2 ^ 32 - 1
    → IsMode (reported width height bpp pitch buffer)
    → Printed
        (length text)
        (reported width height bpp pitch buffer)
        (print_bytes font text (framebuffer_init width height bpp pitch buffer))
unfolding framebuffer_init
framebuffer_init-Printed font text width height bpp pitch buffer few m =
    let a = reported width height bpp pitch buffer in
    let i = clear-Inside a m in
    let r =
      print_bytes-Printed font text 0 (length text) (clear a) (omega arith) few (Inside-IsMode i m)
        (first_cursor a m) in
    record { inside = Inside-trans i r.inside; mode = r.mode; cursor = r.cursor }
  where
    first_cursor : (fb : Framebuffer) → IsMode fb → IsCursor 0 (clear fb)
    first_cursor fb m =
        unfold clear in record { few = omega arith; left = omega arith; top = omega arith }
