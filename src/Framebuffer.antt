-- ===== src/Framebuffer.antt =====
-- src/framebuffer.c and include/framebuffer.h: text on a linear framebuffer of 32-bit pixels.
pub mod Bounds
pub mod Screen
mod Tests
use bayos_kernel.Common.{
  ℕ, zero, suc, List, [], ◌∷◌, ◌+◌, ◌-◌, ◌*◌, ◌/◌, ◌%◌, ◌^◌, Bool, true, false, ltb, leb, ◌==◌,
  if◌then◌else◌, add64, u64_mod,
}

abbrev pub line_spacing : ℕ
line_spacing = 2

abbrev pub letter_spacing : ℕ
letter_spacing = 0

abbrev pub border_padding : ℕ
border_padding = 1

abbrev pub char_raster_height : ℕ
char_raster_height = 16

abbrev pub char_raster_width : ℕ
char_raster_width = 8

-- `buffer` gives the 32-bit pixel at each index.
pub record Framebuffer : Type 0 where
  pub width : ℕ
  pub height : ℕ
  pub bpp : ℕ
  pub pitch : ℕ
  pub x_pos : ℕ
  pub y_pos : ℕ
  pub buffer : ℕ → ℕ

abbrev mul64 : ℕ → ℕ → ℕ
mul64 a b = a * b % u64_mod

pub carriage_return : Framebuffer → Framebuffer
carriage_return fb = record fb { x_pos = border_padding }

pub newline : Framebuffer → Framebuffer
unfolding carriage_return
newline fb =
    carriage_return (record fb { y_pos = add64 fb.y_pos (char_raster_height + line_spacing) })

-- `memset(fb->buffer, 0, size)`: the pixels that lie in the first `size` bytes. (`size` is a
-- multiple of 4 for the 32-bit modes that the driver assumes.)
pub clear : Framebuffer → Framebuffer
clear fb =
    let size = mul64 (mul64 (fb.bpp / 8) fb.width) fb.height in
    record fb {
      x_pos = border_padding;
      y_pos = border_padding;
      buffer = λ i. if ltb i (size / 4) then 0 else fb.buffer i;
    }

pub write_pixel : Framebuffer → (x y color : ℕ) → Framebuffer
write_pixel fb x y color =
    let at = add64 x (mul64 y (fb.pitch / 4)) in
    record fb { buffer = λ i. if i == at then color else fb.buffer i }

-- The inner loop of `write_char`, with `rounds` columns to go from column `x`: bit `7 - x` of the
-- row of the glyph.
pub write_row : (rounds x y row color : ℕ) → Framebuffer → Framebuffer
unfolding write_pixel
write_row zero x y row color fb = fb
write_row (suc rounds) x y row color fb = write_row rounds (x + 1) y row color (
    if row / 2 ^ (7 - x) % 2 == 1
    then write_pixel fb (add64 fb.x_pos x) (add64 fb.y_pos y) color
    else fb)

-- The outer loop. `glyph` gives the bytes of the glyph in the font.
pub write_rows : (rounds y : ℕ) (glyph : ℕ → ℕ) (color : ℕ) → Framebuffer → Framebuffer
unfolding write_row
write_rows zero y glyph color fb = fb
write_rows (suc rounds) y glyph color fb =
    write_rows rounds (y + 1) glyph color (write_row char_raster_width 0 y (glyph y) color fb)

-- `font` gives the bytes behind the header of the font.
pub write_char : (font : ℕ → ℕ) → Framebuffer → (c color : ℕ) → Framebuffer
unfolding write_rows
write_char font fb c color =
    let bytes_per_glyph = char_raster_width * char_raster_height / 8 in
    let drawn = write_rows char_raster_height 0 (λ y. font (c * bytes_per_glyph + y)) color fb in
    record drawn { x_pos = add64 drawn.x_pos (char_raster_width + letter_spacing) }

-- The two tests before a character is drawn: wrap the line, and start again at the top.
pub make_room : Framebuffer → Framebuffer
unfolding newline clear
make_room fb =
    let wrapped = if leb fb.width (add64 fb.x_pos char_raster_width) then newline fb else fb in
    if leb wrapped.height (add64 wrapped.y_pos (char_raster_height + border_padding))
    then clear wrapped
    else wrapped

-- `putchar`, for a character code below 256.
pub putchar : (font : ℕ → ℕ) → Framebuffer → ℕ → Framebuffer
unfolding newline carriage_return make_room write_char
putchar font fb c =
    if c == b'\n'
    then newline fb
    else if c == b'\r'
    then carriage_return fb
    else write_char font (make_room fb) c 0xffff_ffff

-- `framebuffer_init`, with the mode that the bootloader reports and what its memory holds.
pub framebuffer_init : (width height bpp pitch : ℕ) (buffer : ℕ → ℕ) → Framebuffer
unfolding clear
framebuffer_init width height bpp pitch buffer = clear (record {
  width = width;
  height = height;
  bpp = bpp;
  pitch = pitch;
  x_pos = 0;
  y_pos = 0;
  buffer = buffer;
})

-- The rounds of `framebuffer_print_process`, with the bytes that its pipe gives.
pub print_bytes : (font : ℕ → ℕ) → List ℕ → Framebuffer → Framebuffer
unfolding putchar
print_bytes font [] fb = fb
print_bytes font (c ∷ cs) fb = print_bytes font cs (putchar font fb c)
