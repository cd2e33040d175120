-- ===== src/Framebuffer/Bounds.antt =====
-- `putchar` draws inside the screen.
use bayos_kernel.Common.{
  ℕ, zero, suc, ◌+◌, ◌-◌, ◌*◌, ◌/◌, ◌%◌, ◌^◌, ◌≤◌, ◌<◌, ◌≡◌, refl, ◌∙◌, Bool, true, false, arith,
  leb, ◌==◌, if◌then◌else◌, add64, u64_mod,
}
use bayos_kernel.Framebuffer.{
  Framebuffer, carriage_return, newline, clear, write_pixel, write_row, write_rows, write_char,
  make_room, putchar,
}

-- A mode that the driver can draw in: room for a character and its border, and lines of
-- whole pixels that are no longer than the pitch.
pub record IsMode (fb : Framebuffer) : Type 0 where
  pub wide : 9 < fb.width
  pub high : 18 < fb.height
  pub bits : fb.bpp ≡ 32
  pub lines : fb.width ≤ fb.pitch / 4
  pub small_pitch : fb.pitch < 2 ^ 20
  pub small_height : fb.height < 2 ^ 20

-- The cursor after `n` characters: only a line feed leaves it below the screen, by a line.
pub record IsCursor (n : ℕ) (fb : Framebuffer) : Type 0 where
  pub few : n < 2 ^ 32
  pub left : fb.x_pos ≤ fb.width + 8
  pub top : fb.y_pos ≤ 2 ^ 20 + 18 * n

-- A character at the cursor lies on the screen.
record HasRoom (fb : Framebuffer) : Type 0 where
  right : fb.x_pos + 8 < fb.width
  bottom : fb.y_pos + 17 < fb.height

-- From `a` to `b` the mode stays, and nothing behind the last line of the screen is written.
pub record Inside (a b : Framebuffer) : Type 0 where
  pub width : b.width ≡ a.width
  pub height : b.height ≡ a.height
  pub bpp : b.bpp ≡ a.bpp
  pub pitch : b.pitch ≡ a.pitch
  pub kept : (i : ℕ) → a.pitch / 4 * a.height ≤ i → b.buffer i ≡ a.buffer i

pub Inside-refl : (a : Framebuffer) → Inside a a
Inside-refl a = record { width = refl; height = refl; bpp = refl; pitch = refl; kept = λ i h. refl }

pub Inside-trans : {a b c : Framebuffer} → Inside a b → Inside b c → Inside a c
Inside-trans {a} {b} {c} p q = record {
  width = q.width ∙ p.width;
  height = q.height ∙ p.height;
  bpp = q.bpp ∙ p.bpp;
  pitch = q.pitch ∙ p.pitch;
  kept = λ i h. q.kept i (rw (p.pitch, p.height) h) ∙ p.kept i h;
}

pub Inside-IsMode : {a b : Framebuffer} → Inside a b → IsMode a → IsMode b
Inside-IsMode {a} {b} p m = omega (
  arith, p.width, p.height, p.bpp, p.pitch, m.wide, m.high, m.bits, m.lines, m.small_pitch,
  m.small_height,
)

index_bound : (x y w h : ℕ) → x < w → y < h → x + y * w < w * h
index_bound x y w h p q = grind arith

-- The index of a pixel of the screen does not overflow.
index_lem :
    (x y w h : ℕ) → x < w → y < h → w < 2 ^ 20 → h < 2 ^ 20 → add64 x (y * w % u64_mod) ≡ x + y * w
index_lem x y w h hx hy hw hh =
    omega (arith, index_bound x y w h hx hy, index_bound 0 h w (2 ^ 20) (omega arith) hh)

write_pixel-Inside :
    (fb : Framebuffer) (x y color : ℕ)
    → IsMode fb
    → x < fb.width
    → y < fb.height
    → Inside fb (write_pixel fb x y color)
unfolding write_pixel
write_pixel-Inside fb x y color m hx hy =
    let at =
      index_lem x y (fb.pitch / 4) fb.height (omega (arith, m.lines)) hy
        (omega (arith, m.small_pitch)) m.small_height in
    let small = index_bound x y (fb.pitch / 4) fb.height (omega (arith, m.lines)) hy in
    rw at (record {
      width = refl;
      height = refl;
      bpp = refl;
      pitch = refl;
      kept = λ i h. ground (arith, small);
    })

-- What drawing leaves: the cursor is where it was.
record Drawn (a b : Framebuffer) : Type 0 where
  inside : Inside a b
  x_pos : b.x_pos ≡ a.x_pos
  y_pos : b.y_pos ≡ a.y_pos

Drawn-trans : {a b c : Framebuffer} → Drawn a b → Drawn b c → Drawn a c
Drawn-trans p q = record {
  inside = Inside-trans p.inside q.inside;
  x_pos = q.x_pos ∙ p.x_pos;
  y_pos = q.y_pos ∙ p.y_pos;
}

Drawn-HasRoom : {a b : Framebuffer} → Drawn a b → HasRoom a → HasRoom b
Drawn-HasRoom p h =
    omega (arith, p.x_pos, p.y_pos, p.inside.width, p.inside.height, h.right, h.bottom)

pixel_Drawn :
    (fb : Framebuffer) (x y color : ℕ) (on : Bool)
    → IsMode fb
    → HasRoom fb
    → x < 8
    → y < 16
    → Drawn fb (if on then write_pixel fb (add64 fb.x_pos x) (add64 fb.y_pos y) color else fb)
pixel_Drawn fb x y color true m r hx hy =
    unfold write_pixel in
    record {
      inside =
          write_pixel-Inside fb (add64 fb.x_pos x) (add64 fb.y_pos y) color m
            (omega (arith, r.right)) (omega (arith, r.bottom));
      x_pos = refl;
      y_pos = refl;
    }
pixel_Drawn fb x y color false m r hx hy = record {
  inside = Inside-refl fb;
  x_pos = refl;
  y_pos = refl;
}

write_row-Drawn :
    (rounds x y row color : ℕ) (fb : Framebuffer)
    → IsMode fb
    → HasRoom fb
    → rounds + x ≡ 8
    → y < 16
    → Drawn fb (write_row rounds x y row color fb)
unfolding write_row
write_row-Drawn zero x y row color fb m r hx hy = record {
  inside = Inside-refl fb;
  x_pos = refl;
  y_pos = refl;
}
write_row-Drawn (suc k) x y row color fb m r hx hy =
    let d = pixel_Drawn fb x y color (row / 2 ^ (7 - x) % 2 == 1) m r (omega arith) hy in
    Drawn-trans d (
      write_row-Drawn k (x + 1) y row color _ (Inside-IsMode d.inside m) (Drawn-HasRoom d r)
        (omega arith) hy)

write_rows-Drawn :
    (rounds y : ℕ) (glyph : ℕ → ℕ) (color : ℕ) (fb : Framebuffer)
    → IsMode fb
    → HasRoom fb
    → rounds + y ≡ 16
    → Drawn fb (write_rows rounds y glyph color fb)
unfolding write_rows
write_rows-Drawn zero y glyph color fb m r hy = record {
  inside = Inside-refl fb;
  x_pos = refl;
  y_pos = refl;
}
write_rows-Drawn (suc k) y glyph color fb m r hy =
    let d = write_row-Drawn 8 0 y (glyph y) color fb m r refl (omega arith) in
    Drawn-trans d (
      write_rows-Drawn k (y + 1) glyph color _ (Inside-IsMode d.inside m) (Drawn-HasRoom d r)
        (omega arith))

make_room-HasRoom : (n : ℕ) (fb : Framebuffer) → IsMode fb → IsCursor n fb → HasRoom (make_room fb)
unfolding make_room newline carriage_return clear
make_room-HasRoom n fb m c = ground arith

mul_le : (a b c : ℕ) → a ≤ b → a * c ≤ b * c
mul_le a b c h = grind arith

clear_size :
    (w h : ℕ) → w < 2 ^ 20 → h < 2 ^ 20 → 0 < w → (w * 4 % u64_mod) * h % u64_mod / 4 ≡ w * h
clear_size w h hw hh pos =
    let one : w * 4 % u64_mod ≡ w * 4 = omega arith in
    rw one (omega (arith, index_bound 0 h w (2 ^ 20) pos hh))

-- `clear` zeroes the lines of the screen at most. (Where the pitch is more than the width, it leaves
-- the end of the screen as it was.)
pub clear-Inside : (fb : Framebuffer) → IsMode fb → Inside fb (clear fb)
unfolding clear
clear-Inside fb m = record {
  width = refl;
  height = refl;
  bpp = refl;
  pitch = refl;
  kept = λ i h. ground (
    arith,
    clear_size fb.width fb.height,
    mul_le fb.width (fb.pitch / 4) fb.height,
    m.bits,
    four,
  );
}
  where
    four : 4 * fb.width ≡ fb.width * 4
    four = omega arith

newline-Inside : (fb : Framebuffer) → Inside fb (newline fb)
unfolding newline carriage_return
newline-Inside fb = record {
  width = refl;
  height = refl;
  bpp = refl;
  pitch = refl;
  kept = λ i h. refl;
}

if_Inside : (t : Bool) (a b : Framebuffer) → Inside a b → Inside a (if t then b else a)
if_Inside true a b p = p
if_Inside false a b p = Inside-refl a

make_room-Inside : (fb : Framebuffer) → IsMode fb → Inside fb (make_room fb)
unfolding make_room
make_room-Inside fb m =
    let wrapped = if_Inside (leb fb.width (add64 fb.x_pos 8)) fb (newline fb) (newline-Inside fb) in
    Inside-trans wrapped (if_Inside _ _ _ (clear-Inside _ (Inside-IsMode wrapped m)))

-- What `putchar` leaves after `n` characters: the mode, the pixels behind the screen, and a
-- cursor that the next call can take.
pub record Put (n : ℕ) (a b : Framebuffer) : Type 0 where
  pub inside : Inside a b
  pub mode : IsMode b
  pub cursor : n + 1 < 2 ^ 32 → IsCursor (n + 1) b

advance-Put :
    (n : ℕ) {a r d : Framebuffer}
    → Inside a r
    → IsMode r
    → HasRoom r
    → Drawn r d
    → Put n a (record d { x_pos = add64 d.x_pos 8 })
advance-Put n {d} i m r p =
    let md = Inside-IsMode p.inside m in
    let rd = Drawn-HasRoom p r in
    record {
      inside = Inside-trans i (record {
        width = p.inside.width;
        height = p.inside.height;
        bpp = p.inside.bpp;
        pitch = p.inside.pitch;
        kept = p.inside.kept;
      });
      mode = record {
        wide = md.wide;
        high = md.high;
        bits = md.bits;
        lines = md.lines;
        small_pitch = md.small_pitch;
        small_height = md.small_height;
      };
      cursor = λ few. record {
        few = few;
        left = omega (arith, rd.right);
        top = omega (arith, rd.bottom, md.small_height);
      };
    }

visible-Put :
    (font : ℕ → ℕ) (n : ℕ) (fb : Framebuffer) (c : ℕ)
    → IsMode fb
    → IsCursor n fb
    → Put n fb (write_char font (make_room fb) c 0xffff_ffff)
unfolding write_char
visible-Put font n fb c m cur =
    let m' = Inside-IsMode (make_room-Inside fb m) m in
    let r = make_room-HasRoom n fb m cur in
    advance-Put n (make_room-Inside fb m) m' r
      (write_rows-Drawn 16 0 (λ y. font (c * 16 + y)) 0xffff_ffff (make_room fb) m' r refl)

newline-Put : (n : ℕ) (fb : Framebuffer) → IsMode fb → IsCursor n fb → Put n fb (newline fb)
unfolding newline carriage_return
newline-Put n fb m c = record {
  inside = newline-Inside fb;
  mode = record {
    wide = m.wide;
    high = m.high;
    bits = m.bits;
    lines = m.lines;
    small_pitch = m.small_pitch;
    small_height = m.small_height;
  };
  cursor = λ few. record { few = few; left = omega arith; top = omega (arith, c.top, c.few) };
}

carriage_return-Put :
    (n : ℕ) (fb : Framebuffer) → IsMode fb → IsCursor n fb → Put n fb (carriage_return fb)
unfolding carriage_return
carriage_return-Put n fb m c = record {
  inside = record { width = refl; height = refl; bpp = refl; pitch = refl; kept = λ i h. refl };
  mode = record {
    wide = m.wide;
    high = m.high;
    bits = m.bits;
    lines = m.lines;
    small_pitch = m.small_pitch;
    small_height = m.small_height;
  };
  cursor = λ few. record { few = few; left = omega arith; top = omega (arith, c.top) };
}

if-Put :
    {n : ℕ} {a x y : Framebuffer} (t : Bool) → Put n a x → Put n a y → Put n a (if t then x else y)
if-Put true p q = p
if-Put false p q = q

-- Whatever the character, the font and the state of the cursor after fewer than 2 ^ 32 - 1 characters, `putchar` writes no pixel behind the last line of the screen, and
-- leaves the mode, and a cursor for the next call.
pub putchar-Put :
    (font : ℕ → ℕ) (n : ℕ) (fb : Framebuffer) (c : ℕ)
    → IsMode fb
    → IsCursor n fb
    → Put n fb (putchar font fb c)
unfolding putchar
putchar-Put font n fb c m cur =
    if-Put (c == b'\n') (newline-Put n fb m cur)
      (if-Put (c == b'\r') (carriage_return-Put n fb m cur) (visible-Put font n fb c m cur))
