-- ===== src/Initramfs/Octal.antt =====
-- `oct2bin` of src/fs/initramfs.c reads octal digits.
use bayos_kernel.Initramfs.{oct_loop, oct2bin}
use bayos_kernel.Strings.{Bytes}
use bayos_kernel.Common.{
  ℕ, ◌+◌, ◌-◌, ◌*◌, ◌%◌, ◌^◌, ◌<◌, ◌≤◌, ◌≡◌, refl, List, [], ◌∷◌, length, arith,
}

-- The number with these octal digits behind those of `n`.
unfoldable pub octal : (n : ℕ) → List ℕ → ℕ
octal n [] = n
octal n (d ∷ ds) = octal (n * 8 + d) ds

-- The characters from `c` on are these octal digits.
unfoldable pub Digits : Bytes → ℕ → List ℕ → Type 0
Digits m c [] = Unit
Digits m c (d ∷ ds) = (m c ≡ b'0' + d) × (d < 8) × Digits m (c + 1) ds

octal-least : (n : ℕ) (ds : List ℕ) → n ≤ octal n ds
unfolding octal
octal-least n [] = omega arith
octal-least n (d ∷ ds) = omega (arith, octal-least (n * 8 + d) ds)

oct_loop_lem :
    (c n : ℕ) (m : Bytes) (ds : List ℕ)
    → Digits m c ds
    → octal n ds < 2 ^ 32
    → oct_loop (length ds) c n m ≡ octal n ds
unfolding oct_loop octal Digits
oct_loop_lem c n m [] h l = refl
oct_loop_lem c n m (d ∷ ds) (e, o, h) l =
    let small = octal-least (n * 8 + d) ds in
    let next : (n * 8 + m c + 2 ^ 32 - b'0') % 2 ^ 32 ≡ n * 8 + d = omega (arith, e, o, small, l) in
    rw (next, oct_loop) (oct_loop_lem (c + 1) (n * 8 + d) m ds h l)

pub oct2bin_lem :
    (str : ℕ) (m : Bytes) (ds : List ℕ)
    → Digits m str ds
    → octal 0 ds < 2 ^ 32
    → oct2bin str (length ds) m ≡ octal 0 ds
unfolding oct2bin
oct2bin_lem str m ds h l = oct_loop_lem str 0 m ds h l
