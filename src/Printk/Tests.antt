-- ===== src/Printk/Tests.antt =====
-- Formats on a list of the characters that come out: tests, and the theorems at them.
use bayos_kernel.Printk.{
  Sinks, fill_buffer, put_buffer, putchar, at_least_ten, negate, last_digit, format_spec_x,
  format_spec_d, printk,
}
use bayos_kernel.Printk.Text.{print}
use bayos_kernel.Printk.Formats.{
  Piece, text, hex, sources, AllFit, all_rendered, printk-all_rendered,
}
use bayos_kernel.Strings.{Bytes}
use bayos_kernel.Strings.Compares.{Holds}
use bayos_kernel.Common.{
  ℕ, ◌≡◌, refl, some, none, List, [], ◌∷◌, ◌++◌, length, arith, ◌==◌, if◌then◌else◌, negsuc,
}

abbrev port : Sinks (List ℕ)
port = record { serial = λ c w. w ++ c ∷ []; print_pipe = λ c w. w; fb_default = none }

shows_hex : format_spec_x port 1 0x2f [] ≡ (2, b'2' ∷ b'f' ∷ [])
unfolding format_spec_x fill_buffer put_buffer putchar
shows_hex = refl

-- the smallest `int` has no digits
shows_smallest : format_spec_d port 1 10 (negsuc 0x7fff_ffff) [] ≡ (2, b'-' ∷ b'(' ∷ [])
unfolding format_spec_d at_least_ten negate putchar last_digit
shows_smallest = refl

-- "%x!" at 50
abbrev bytes : Bytes
bytes a = if a == 50 then b'%' else if a == 51 then b'x' else if a == 52 then b'!' else 0

abbrev parts : List Piece
parts = hex ∷ text b'!' ∷ []

bytes-Holds : Holds bytes 50 (sources parts)
unfolding Holds sources
bytes-Holds = (refl, omega arith, (refl, omega arith, (refl, omega arith, refl)))

parts-AllFit : AllFit 4 (λ i. 0x2f) (λ i. []) bytes 0 parts
unfolding AllFit
parts-AllFit = (tt, ((λ e. absurd (omega (arith, e))), tt))

printk-all_rendered_example :
    let shown = all_rendered 4 (λ i. 0x2f) (λ i. []) bytes 0 parts in
    printk port 1 4 50 (λ i. 0x2f) bytes [] ≡ some (length shown, print port 1 shown [])
printk-all_rendered_example =
    printk-all_rendered port 1 4 50 (λ i. 0x2f) (λ i. []) bytes parts [] (omega arith) (omega arith)
      bytes-Holds parts-AllFit
