-- ===== src/Initramfs/Archive.antt =====
-- The tar archive that src/fs/initramfs.c reads, as a list of its files.
use bayos_kernel.Initramfs.{header_step, oct2bin, lookup_loop, initramfs_lookup}
use bayos_kernel.Initramfs.Octal.{octal, Digits, oct2bin_lem}
use bayos_kernel.Strings.{Bytes, memcmp, strlen}
use bayos_kernel.Strings.Compares.{Holds, strlen_lem}
use bayos_kernel.Strings.Names.{same_name, memcmp-same}
use bayos_kernel.Common.{
  ℕ, zero, suc, ◌+◌, ◌*◌, ◌/◌, ◌^◌, ◌<◌, ◌≤◌, ◌≡◌, ◌≢◌, refl, sym, ap, ◌∙◌, List, [], ◌∷◌, length,
  arith, is_zero, Bool, true, false, some, if◌then◌else◌, ◌==◌,
}

-- A file of the archive: its name without the first character, and the digits of its size.
pub record Entry : Type 0 where
  pub name : List ℕ
  pub digits : List ℕ

unfoldable pub size_of : Entry → ℕ
size_of e = octal 0 e.digits

-- A header of 512 bytes, and the contents in whole blocks.
unfoldable pub span : Entry → ℕ
unfolding size_of
span e = 512 + (size_of e + 511) / 512 * 512

pub span-enough : (e : Entry) → 512 + size_of e ≤ span e
unfolding span
span-enough e = omega arith

-- The header at `ptr` describes the file. The name fits in its field, and the size in an `int`.
unfoldable pub Describes : Bytes → (ustar ptr : ℕ) → Entry → Type 0
Describes m ustar ptr e =
    (is_zero (memcmp (ptr + 257) ustar 5 m) ≡ true)
    × Holds m (ptr + 1) e.name
    × (length e.name < 99)
    × Digits m (ptr + 0x7c) e.digits
    × (length e.digits ≡ 11)
    × (size_of e < 2 ^ 31)

-- The archive at `ptr` has these files, and behind them something that is not a header.
unfoldable pub IsArchive : Bytes → (ustar ptr : ℕ) → List Entry → Type 0
IsArchive m ustar ptr [] = is_zero (memcmp (ptr + 257) ustar 5 m) ≡ false
IsArchive m ustar ptr (e ∷ es) = Describes m ustar ptr e × IsArchive m ustar (ptr + span e) es

-- The size and the address of the contents of the first file with this name, or zeros.
unfoldable pub find : (name : List ℕ) (ptr : ℕ) → List Entry → ℕ × ℕ
unfolding size_of span
find name ptr [] = (0, 0)
find name ptr (e ∷ es) =
    let rest = find name (ptr + span e) es in
    if same_name e.name name then (size_of e, ptr + 512) else rest

lookup-end :
    (rounds fuel ustar ptr filename : ℕ) (m : Bytes)
    → is_zero (memcmp (ptr + 257) ustar 5 m) ≡ false
    → lookup_loop (suc rounds) fuel ustar ptr filename m ≡ some (0, 0)
unfolding lookup_loop
lookup-end rounds fuel ustar ptr filename m h = rw h refl

lookup-step :
    (rounds fuel ustar ptr filename size len : ℕ) (m : Bytes)
    → is_zero (memcmp (ptr + 257) ustar 5 m) ≡ true
    → oct2bin (ptr + 0x7c) 11 m ≡ size
    → strlen fuel filename m ≡ some len
    → lookup_loop (suc rounds) fuel ustar ptr filename m ≡ (
        if is_zero (memcmp (ptr + 1) filename (len + 1) m)
        then some (size, ptr + 512)
        else lookup_loop rounds fuel ustar (ptr + header_step size) filename m)
unfolding lookup_loop
lookup-step rounds fuel ustar ptr filename size len m h e s = rw (h, e, s) refl

span-header_step : (e : Entry) → header_step (size_of e) ≡ span e
unfolding header_step span
span-header_step e = omega arith

size-oct2bin :
    (m : Bytes) (ptr : ℕ) (e : Entry)
    → Digits m (ptr + 0x7c) e.digits
    → length e.digits ≡ 11
    → size_of e < 2 ^ 31
    → oct2bin (ptr + 0x7c) 11 m ≡ size_of e
unfolding size_of
size-oct2bin m ptr e d l small =
    ap (λ k. oct2bin (ptr + 0x7c) k m) (sym l) ∙ oct2bin_lem (ptr + 0x7c) m e.digits d (omega arith)

lookup_loop_lem :
    (rounds fuel ustar ptr filename : ℕ) (m : Bytes) (name : List ℕ) (es : List Entry)
    → length es < rounds
    → length name < fuel
    → Holds m filename name
    → IsArchive m ustar ptr es
    → lookup_loop rounds fuel ustar ptr filename m ≡ some (find name ptr es)
unfolding IsArchive Describes find
lookup_loop_lem zero fuel ustar ptr filename m name es r l h w = absurd (omega arith)
lookup_loop_lem (suc r) fuel ustar ptr filename m name [] b l h w =
    lookup-end r fuel ustar ptr filename m w
lookup_loop_lem (suc r) fuel ustar ptr filename m name (e ∷ es) b l h
      ((magic, n, s, d, eleven, small), w) =
    let rest = lookup_loop_lem r fuel ustar (ptr + span e) filename m name es (omega arith) l h w in
    lookup-step r fuel ustar ptr filename (size_of e) (length name) m magic
      (size-oct2bin m ptr e d eleven small) (strlen_lem fuel filename m name l h)
    ∙ rw
        (
          memcmp-same (ptr + 1) filename (length name + 1) m e.name name refl n h,
          span-header_step e,
          rest,
        )
        (pick (same_name e.name name) _ _)
  where
    pick : (b : Bool) (x y : ℕ × ℕ) → (if b then some x else some y) ≡ some (if b then x else y)
    pick true x y = refl
    pick false x y = refl

-- With one round more than there are files and than the name is long, the fuel is enough.
pub initramfs_lookup_lem :
    (fuel ustar archive filename : ℕ) (m : Bytes) (name : List ℕ) (es : List Entry)
    → filename ≢ 0
    → length es < fuel
    → length name < fuel
    → Holds m filename name
    → IsArchive m ustar archive es
    → initramfs_lookup fuel ustar archive filename m ≡ some (find name archive es)
unfolding initramfs_lookup
initramfs_lookup_lem fuel ustar archive filename m name es ne r l h w =
    let loop = lookup_loop_lem fuel fuel ustar archive filename m name es r l h w in
    let some_name : (filename == 0) ≡ false = ground (arith, ne) in rw some_name loop
