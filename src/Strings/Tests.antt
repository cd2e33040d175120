-- ===== src/Strings/Tests.antt =====
-- A small memory: tests, and the theorems at it.
use bayos_kernel.Strings.{Bytes, memmove, memcmp, strncmp}
use bayos_kernel.Strings.Copies.{Copied, memmove-Copied}
use bayos_kernel.Strings.Compares.{Holds}
use bayos_kernel.Common.{ℕ, ◌≡◌, refl, List, [], ◌∷◌, arith, ◌==◌, if◌then◌else◌, pos, negsuc}

-- "ab" at 16, and "ac" at 32
abbrev bytes : Bytes
bytes a =
    if a == 16
    then 97
    else if a == 17
    then 98
    else if a == 32
    then 97
    else if a == 33
    then 99
    else 0

moves_up : (memmove 17 16 3 bytes 17 ≡ 97) × (memmove 17 16 3 bytes 18 ≡ 98)
unfolding memmove
moves_up = (refl, refl)

first : List ℕ
first = 97 ∷ 98 ∷ []

second : List ℕ
second = 97 ∷ 99 ∷ []

first-Holds : Holds bytes 16 first
unfolding Holds first
first-Holds = (refl, omega arith, (refl, omega arith, refl))

second-Holds : Holds bytes 32 second
unfolding Holds second
second-Holds = (refl, omega arith, (refl, omega arith, refl))

compares : (memcmp 16 32 2 bytes ≡ negsuc 0) × (strncmp 16 32 1 bytes ≡ pos 0)
unfolding memcmp strncmp
compares = (refl, refl)

memmove-Copied_example : Copied 17 16 3 bytes (memmove 17 16 3 bytes)
memmove-Copied_example = memmove-Copied 17 16 3 bytes
