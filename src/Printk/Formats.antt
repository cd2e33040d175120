-- ===== src/Printk/Formats.antt =====
-- `printk` of src/printk.c against the text that a format stands for.
use bayos_kernel.Printk.{Sinks, to_int, put_piece, printk_loop, printk}
use bayos_kernel.Printk.Text.{
  hex_shown, hex_text-shown, print, emit-print, int_text, is_int, emit, emit-append,
  format_spec_x_lem, format_spec_s_lem,
}
use bayos_kernel.Printk.Decimal.{format_spec_d_lem}
use bayos_kernel.Strings.{Bytes}
use bayos_kernel.Strings.Prefixes.{Holds-at}
use bayos_kernel.Strings.Compares.{Holds}
use bayos_kernel.Common.{
  ℕ, zero, suc, ◌+◌, ◌%◌, ◌^◌, ◌<◌, ◌≡◌, ◌≢◌, refl, sym, some, List, [], ◌∷◌, ◌++◌, length,
  length-append, arith, true,
}

-- A part of a format: a byte that stands for itself, or a "%" with the byte behind it.
pub data Piece : Type 0 where
  text : ℕ → Piece
  hex : Piece
  percent : Piece
  char : Piece
  str : Piece
  dec : Piece
  other : ℕ → Piece

-- its bytes in the format, and the number of arguments that it takes
pub source : Piece → List ℕ
source (text c) = c ∷ []
source hex = b'%' ∷ b'x' ∷ []
source percent = b'%' ∷ b'%' ∷ []
source char = b'%' ∷ b'c' ∷ []
source str = b'%' ∷ b's' ∷ []
source dec = b'%' ∷ b'd' ∷ []
source (other c) = b'%' ∷ c ∷ []

pub uses : Piece → ℕ
uses (text c) = 0
uses hex = 1
uses percent = 0
uses char = 1
uses str = 1
uses dec = 1
uses (other c) = 0

unfoldable pub sources : List Piece → List ℕ
unfolding source
sources [] = []
sources (p ∷ ps) = source p ++ sources ps

module _ (fuel : ℕ) (args : ℕ → ℕ) (strings : ℕ → List ℕ) (m : Bytes) where
  -- The text of a part with the argument `i` next; `strings i` are the bytes of a string argument.
  pub rendered : (i : ℕ) → Piece → List ℕ
  rendered i (text c) = c ∷ []
  rendered i hex = hex_shown (args i)
  rendered i percent = b'%' ∷ []
  rendered i char = (args i % 2 ^ 32) ∷ []
  rendered i str = strings i
  rendered i dec = int_text (to_int (args i))
  rendered i (other c) = []

  -- The argument is as the part wants it, and the byte of `text` and `other` is no other part.
  pub Fits : (i : ℕ) → Piece → Type 0
  Fits i (text c) = c ≢ b'%'
  Fits i hex = Unit
  Fits i percent = Unit
  Fits i char = Unit
  Fits i str = Holds m (args i) (strings i) × (length (strings i) < fuel)
  Fits i dec = is_int (to_int (args i)) ≡ true
  Fits i (other c) = (c ≢ b'x') × (c ≢ b'%') × (c ≢ b'c') × (c ≢ b's') × (c ≢ b'd')

  pub all_rendered : (i : ℕ) → List Piece → List ℕ
  unfolding rendered
  all_rendered i [] = []
  all_rendered i (p ∷ ps) = rendered i p ++ all_rendered (i + uses p) ps

  unfoldable pub AllFit : (i : ℕ) → List Piece → Type 0
  unfolding Fits
  AllFit i [] = Unit
  AllFit i (p ∷ ps) = Fits i p × AllFit (i + uses p) ps

  module _ {W : Type 0} (sinks : Sinks W) (type : ℕ) where
    put_piece_lem :
        (c i : ℕ) (p : Piece) (rest : List ℕ) (w : W)
        → Holds m c (source p ++ rest)
        → Fits i p
        → put_piece sinks type fuel c i args m w
          ≡ some
              (length (rendered i p), uses p, length (source p), emit sinks type (rendered i p) w)
    unfolding put_piece rendered source uses Fits Holds emit
    put_piece_lem c i (text k) rest w h f = ground (arith, h.0, f)
    put_piece_lem c i hex rest w (e, _, (d, _, _)) f =
        rw (e, d, format_spec_x_lem sinks type (args i) w, hex_text-shown (args i)) refl
    put_piece_lem c i percent rest w (e, _, (d, _, _)) f = rw (e, d) refl
    put_piece_lem c i char rest w (e, _, (d, _, _)) f = rw (e, d) refl
    put_piece_lem c i str rest w (e, _, (d, _, _)) f =
        rw (e, d, format_spec_s_lem sinks type fuel (args i) m (strings i) w f.1 f.0) refl
    put_piece_lem c i dec rest w (e, _, (d, _, _)) f =
        rw (e, d, format_spec_d_lem sinks type (to_int (args i)) w f) refl
    put_piece_lem c i (other k) rest w (e, _, (d, _, _)) f =
        rw e (ground (arith, d, f.0, f.1, f.2, f.3, f.4))

Holds-behind :
    (m : Bytes) (c : ℕ) (cs rest : List ℕ) → Holds m c (cs ++ rest) → Holds m (c + length cs) rest
unfolding Holds
Holds-behind m c [] rest h = Holds-at m rest (omega arith) h
Holds-behind m c (b ∷ cs) rest h =
    Holds-at m rest (omega arith) (Holds-behind m (c + 1) cs rest h.2)

source-nonempty :
    (m : Bytes) (c : ℕ) (p : Piece) (rest : List ℕ) → Holds m c (source p ++ rest) → 0 < m c
unfolding Holds source
source-nonempty m c (text k) rest h = omega (arith, h.0, h.1)
source-nonempty m c hex rest h = omega (arith, h.0)
source-nonempty m c percent rest h = omega (arith, h.0)
source-nonempty m c char rest h = omega (arith, h.0)
source-nonempty m c str rest h = omega (arith, h.0)
source-nonempty m c dec rest h = omega (arith, h.0)
source-nonempty m c (other k) rest h = omega (arith, h.0)

module _ {W : Type 0} (sinks : Sinks W) (type : ℕ) where
  loop-step :
      {n used width k : ℕ} {w1 w2 : W} (rounds fuel c i : ℕ) (args : ℕ → ℕ) (m : Bytes) (w : W)
      → 0 < m c
      → put_piece sinks type fuel c i args m w ≡ some (n, used, width, w1)
      → printk_loop sinks type rounds fuel (c + width) (i + used) args m w1 ≡ some (k, w2)
      → printk_loop sinks type (suc rounds) fuel c i args m w ≡ some (n + k, w2)
  unfolding printk_loop
  loop-step rounds fuel c i args m w h e f = rw (e, printk_loop) (rw f (ground (arith, h)))

  printk_loop_lem :
      (rounds fuel c i : ℕ) (args : ℕ → ℕ) (strings : ℕ → List ℕ) (m : Bytes) (ps : List Piece)
      (w : W)
      → length ps < rounds
      → Holds m c (sources ps)
      → AllFit fuel args strings m i ps
      → let shown = all_rendered fuel args strings m i ps in
        printk_loop sinks type rounds fuel c i args m w
        ≡ some (length shown, emit sinks type shown w)
  unfolding sources all_rendered AllFit
  printk_loop_lem zero fuel c i args strings m ps w l h f = absurd (omega arith)
  printk_loop_lem (suc rounds) fuel c i args strings m [] w l h f =
      unfold printk_loop Holds emit in ground (arith, h)
  printk_loop_lem (suc rounds) fuel c i args strings m (p ∷ ps) w l h (f, fs) =
      let now = rendered fuel args strings m i p in
      let later = all_rendered fuel args strings m (i + uses p) ps in
      let ih =
        printk_loop_lem rounds fuel (c + length (source p)) (i + uses p) args strings m ps
          (emit sinks type now w) (omega arith) (Holds-behind m c (source p) (sources ps) h) fs in
      rw (emit-append sinks type now later w, length-append now later)
        (loop-step rounds fuel c i args m w (source-nonempty m c p (sources ps) h)
          (put_piece_lem fuel args strings m sinks type c i p (sources ps) w h f) ih)

  -- `printk` of a format in memory, with arguments that its parts want, returns. It puts out the text
  -- that the format stands for, one character after the other, each on the port, to the pipe and to the framebuffer as
  -- its type says, and returns their number.
  pub printk-all_rendered :
      (fuel fmt : ℕ) (args : ℕ → ℕ) (strings : ℕ → List ℕ) (m : Bytes) (ps : List Piece) (w : W)
      → 0 < fmt
      → length ps < fuel
      → Holds m fmt (sources ps)
      → AllFit fuel args strings m 0 ps
      → let shown = all_rendered fuel args strings m 0 ps in
        printk sinks type fuel fmt args m w ≡ some (length shown, print sinks type shown w)
  unfolding printk
  printk-all_rendered fuel fmt args strings m ps w p l h f =
      let run = printk_loop_lem fuel fuel fmt 0 args strings m ps w l h f in
      let out = emit-print sinks type (all_rendered fuel args strings m 0 ps) w in
      rw (sym out) (ground (arith, p, run))
