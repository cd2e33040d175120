-- ===== src/Strings.antt =====
-- src/string.c and include/string.h: blocks of bytes and strings in memory.
pub mod Copies
pub mod Compares
pub mod Prefixes
pub mod Names
mod Tests
use bayos_kernel.Common.{
  ℕ, zero, suc, ◌+◌, ◌-◌, ◌%◌, Bool, not, ◌&&◌, Option, none, some, ltb, ◌==◌, if◌then◌else◌, ℤ,
  pos, negsuc,
}

-- The byte at each address. A block does not reach the end of the address space.
abbrev pub Bytes : Type 0
Bytes = ℕ → ℕ

unfoldable pub put : Bytes → (p byte : ℕ) → Bytes
put m p byte a = if a == p then byte else m a

-- The loop `for (i = 0; i < n; i++)` of `memcpy` and `memmove`, with `rounds` to go.
pub copy_up : (rounds i dest src : ℕ) → Bytes → Bytes
unfolding put
copy_up zero i dest src m = m
copy_up (suc rounds) i dest src m = copy_up rounds (i + 1) dest src (put m (dest + i) (m (src + i)))

-- The loop `for (i = n; i > 0; i--)` of `memmove`.
pub copy_down : (i dest src : ℕ) → Bytes → Bytes
unfolding put
copy_down zero dest src m = m
copy_down (suc i) dest src m = copy_down i dest src (put m (dest + i) (m (src + i)))

pub memcpy : (dest src n : ℕ) → Bytes → Bytes
unfolding copy_up
memcpy dest src n m = copy_up n 0 dest src m

pub memmove : (dest src n : ℕ) → Bytes → Bytes
unfolding copy_up copy_down
memmove dest src n m =
    if ltb dest src
    then copy_up n 0 dest src m
    else if ltb src dest
    then copy_down n dest src m
    else m

pub set_loop : (rounds i s c : ℕ) → Bytes → Bytes
unfolding put
set_loop zero i s c m = m
set_loop (suc rounds) i s c m = set_loop rounds (i + 1) s c (put m (s + i) (c % 256))

pub memset : (s c n : ℕ) → Bytes → Bytes
unfolding set_loop
memset s c n m = set_loop n 0 s c m

unfoldable pub compare_loop : (rounds i s1 s2 : ℕ) → Bytes → ℤ
compare_loop zero i s1 s2 m = pos 0
compare_loop (suc rounds) i s1 s2 m =
    let rest = compare_loop rounds (i + 1) s1 s2 m in
    if not (m (s1 + i) == m (s2 + i))
    then (if ltb (m (s1 + i)) (m (s2 + i)) then negsuc 0 else pos 1)
    else rest

unfoldable pub memcmp : (s1 s2 n : ℕ) → Bytes → ℤ
unfolding compare_loop
memcmp s1 s2 n m = compare_loop n 0 s1 s2 m

-- `c1 - c2` of two bytes
abbrev pub byte_difference : ℕ → ℕ → ℤ
byte_difference c1 c2 = if ltb c1 c2 then negsuc (c2 - c1 - 1) else pos (c1 - c2)

-- `strlen` and `strcmp`, on fuel: `none` means that it ran out.
unfoldable pub strlen : (fuel s : ℕ) → Bytes → Option ℕ
strlen zero s m = none
strlen (suc fuel) s m =
    let rest = strlen fuel (s + 1) m in
    if m s == 0 then some 0 else elim rest [ none ↦ none | some n ↦ some (n + 1) ]

pub strcmp : (fuel s1 s2 : ℕ) → Bytes → Option ℤ
strcmp zero s1 s2 m = none
strcmp (suc fuel) s1 s2 m =
    let rest = strcmp fuel (s1 + 1) (s2 + 1) m in
    if not (m s1 == 0) && m s1 == m s2 then rest else some (byte_difference (m s1) (m s2))

pub strncmp_loop : (rounds i s1 s2 : ℕ) → Bytes → ℤ
strncmp_loop zero i s1 s2 m = pos 0
strncmp_loop (suc rounds) i s1 s2 m =
    let rest = strncmp_loop rounds (i + 1) s1 s2 m in
    if not (m (s1 + i) == m (s2 + i))
    then byte_difference (m (s1 + i)) (m (s2 + i))
    else if m (s1 + i) == 0
    then pos 0
    else rest

pub strncmp : (s1 s2 n : ℕ) → Bytes → ℤ
unfolding strncmp_loop
strncmp s1 s2 n m = strncmp_loop n 0 s1 s2 m

-- `strcpy`, on fuel: it tests the byte that it has copied.
pub strcpy : (fuel dest src : ℕ) → Bytes → Option Bytes
unfolding put
strcpy zero dest src m = none
strcpy (suc fuel) dest src m =
    let m1 = put m dest (m src) in
    let rest = strcpy fuel (dest + 1) (src + 1) m1 in if m src == 0 then some m1 else rest
