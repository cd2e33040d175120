-- ===== src/Framebuffer/Tests.antt =====
-- A screen of 32 by 40 pixels.
use bayos_kernel.Common.{ℕ, ◌≡◌, refl, [], ◌∷◌, arith}
use bayos_kernel.Framebuffer.{Framebuffer, putchar, framebuffer_init, print_bytes}
use bayos_kernel.Framebuffer.Screen.{Printed, reported, framebuffer_init-Printed}

abbrev screen : Framebuffer
screen = record {
  width = 32;
  height = 40;
  bpp = 32;
  pitch = 128;
  x_pos = 25;
  y_pos = 19;
  buffer = λ i. 7;
}

abbrev font : ℕ → ℕ
font i = 0x81

-- no room to the right, and then none below: the screen is cleared
wraps_and_clears :
    let fb = putchar font screen b'A' in
    (fb.x_pos ≡ 9) × (fb.y_pos ≡ 1) × (fb.buffer 33 ≡ 0xffff_ffff) × (fb.buffer 34 ≡ 0)
unfolding putchar
wraps_and_clears = (refl, refl, refl, refl)

abbrev garbage : ℕ → ℕ
garbage i = 7

-- the two lines of the screen, and then the first again
framebuffer_init-Printed_example :
    Printed 3
      (reported 32 40 32 128 garbage)
      (print_bytes font (b'A' ∷ b'\n' ∷ b'A' ∷ []) (framebuffer_init 32 40 32 128 garbage))
framebuffer_init-Printed_example =
    framebuffer_init-Printed font (b'A' ∷ b'\n' ∷ b'A' ∷ []) 32 40 32 128 garbage (omega arith)
      (omega arith)
