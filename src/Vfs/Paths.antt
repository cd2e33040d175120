-- ===== src/Vfs/Paths.antt =====
-- The test of src/fs/vfs.c that a path lies below a mount point.
use bayos_kernel.Vfs.{Mountpoint, matches}
use bayos_kernel.Strings.{Bytes, strncmp}
use bayos_kernel.Strings.Prefixes.{strncmp-prefix}
use bayos_kernel.Strings.Compares.{Holds}
use bayos_kernel.Common.{
  ℕ, ◌+◌, ◌≡◌, sym, ap, ◌∙◌, ◌⊎◌, Bool, true, false, ◌&&◌, ◌||◌, List, [], ◌∷◌, ◌++◌, length,
  get_or, arith, ◌==◌, is_zero, ◌↔◌,
}

-- A path is under a mount point: it goes on behind it at the end of a name, or the mount point is one
-- byte long, as "/" is.
pub record Under (mount path : List ℕ) : Type 0 where
  pub rest : List ℕ
  pub parts : path ≡ mount ++ rest
  pub boundary : (length mount ≡ 1) ⊎ ((get_or rest 0 0 ≡ 0) ⊎ (get_or rest 0 0 ≡ b'/'))

-- the byte behind a string's prefix
Holds-get :
    (m : Bytes) (s : ℕ) (cs rest : List ℕ)
    → Holds m s (cs ++ rest)
    → m (s + length cs) ≡ get_or rest 0 0
unfolding Holds
Holds-get m s [] [] h = ap m (omega arith) ∙ h
Holds-get m s [] (r ∷ rest) h = ap m (omega arith) ∙ h.0
Holds-get m s (c ∷ cs) rest h = ap m (omega arith) ∙ Holds-get m (s + 1) cs rest h.2

at_boundary :
    (n c : ℕ) → ((n == 1 || c == 0 || c == b'/') ≡ true) ↔ ((n ≡ 1) ⊎ ((c ≡ 0) ⊎ (c ≡ b'/')))
at_boundary n c = ground arith

and_true : (a b : Bool) → ((a && b) ≡ true) ↔ ((a ≡ true) × (b ≡ true))
and_true true b = ground arith
and_true false b = ground arith

-- `matches` is true exactly for a path under the mount point.
pub matches-Under :
    (path : ℕ) (mp : Mountpoint) (m : Bytes) (ps cs : List ℕ)
    → Holds m path ps
    → Holds m mp.path cs
    → (matches path mp (length cs) m ≡ true) ↔ Under cs ps
unfolding matches
matches-Under path mp m ps cs a b =
    let prefix = strncmp-prefix path mp.path m ps cs a b in
    let both =
      and_true (is_zero (strncmp path mp.path (length cs) m))
        (length cs == 1 || m (path + length cs) == 0 || m (path + length cs) == b'/') in
    let edge = at_boundary (length cs) (m (path + length cs)) in
    let behind : (rest : List ℕ) → ps ≡ cs ++ rest → m (path + length cs) ≡ get_or rest 0 0 =
      λ rest e. Holds-get m path cs rest (rw e at a) in
    (
      λ h.
          let (same, near) = both.0 h in
          let (rest, parts) = prefix.0 same in
          let boundary = edge.0 near in
          record { rest = rest; parts = parts; boundary = rw (behind rest parts) at boundary },
      λ u.
          let boundary = u.boundary in
          both.1
            (prefix.1 (u.rest, u.parts), edge.1 (rw (sym (behind u.rest u.parts)) at boundary)),
    )
