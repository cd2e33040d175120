-- ===== src/Initramfs/Frame.antt =====
-- An archive of src/fs/initramfs.c stays where it is when bytes elsewhere are written.
use bayos_kernel.Initramfs.Octal.{Digits}
use bayos_kernel.Initramfs.Archive.{Entry, span, span-enough, Describes, IsArchive, find}
use bayos_kernel.Initramfs.Lookup.{spans}
use bayos_kernel.Strings.{Bytes, memcmp}
use bayos_kernel.Strings.Compares.{Holds}
use bayos_kernel.Strings.Names.{same_name, memcmp-frame}
use bayos_kernel.Common.{
  ℕ, ◌+◌, ◌<◌, ◌≤◌, ◌≡◌, ◌⊎◌, refl, ◌∙◌, List, [], ◌∷◌, length, arith, Bool-cases, inl, inr,
}

-- Of the bytes from `p` to `q`, none has changed.
unfoldable pub Same : (p q : ℕ) → Bytes → Bytes → Type 0
Same p q m m' = (a : ℕ) → p ≤ a → a < q → m' a ≡ m a

Same-within : {p q p' q' : ℕ} (m m' : Bytes) → p ≤ p' → q' ≤ q → Same p q m m' → Same p' q' m m'
unfolding Same
Same-within m m' l r s a x y = s a (omega arith) (omega arith)

pub Holds-Same :
    (m m' : Bytes) (p : ℕ) (cs : List ℕ)
    → Same p (p + (length cs + 1)) m m'
    → Holds m p cs
    → Holds m' p cs
unfolding Holds Same
Holds-Same m m' p [] s h = s p (omega arith) (omega arith) ∙ h
Holds-Same m m' p (c ∷ cs) s (e, o, h) = (
  s p (omega arith) (omega arith) ∙ e,
  o,
  Holds-Same m m' (p + 1) cs (λ a x y. s a (omega arith) (omega arith)) h,
)

Digits-Same :
    (m m' : Bytes) (p : ℕ) (ds : List ℕ)
    → Same p (p + length ds) m m'
    → Digits m p ds
    → Digits m' p ds
unfolding Digits Same
Digits-Same m m' p [] s h = tt
Digits-Same m m' p (d ∷ ds) s (e, o, h) = (
  s p (omega arith) (omega arith) ∙ e,
  o,
  Digits-Same m m' (p + 1) ds (λ a x y. s a (omega arith) (omega arith)) h,
)

magic-Same :
    (m m' : Bytes) (ustar ptr : ℕ)
    → Same ustar (ustar + 5) m m'
    → Same (ptr + 257) (ptr + 262) m m'
    → memcmp (ptr + 257) ustar 5 m' ≡ memcmp (ptr + 257) ustar 5 m
unfolding Same
magic-Same m m' ustar ptr u s =
    memcmp-frame (ptr + 257) ustar 5 m m' (λ k h. s (ptr + 257 + k) (omega arith) (omega arith))
      (λ k h. u (ustar + k) (omega arith) (omega arith))

Describes-Same :
    (m m' : Bytes) (ustar ptr : ℕ) (e : Entry)
    → Same ustar (ustar + 5) m m'
    → Same ptr (ptr + 512) m m'
    → Describes m ustar ptr e
    → Describes m' ustar ptr e
unfolding Describes
Describes-Same m m' ustar ptr e u s (magic, n, short, d, eleven, small) = (
  rw (magic-Same m m' ustar ptr u (Same-within m m' (omega arith) (omega arith) s)) magic,
  Holds-Same m m' (ptr + 1) e.name (Same-within m m' (omega arith) (omega arith) s) n,
  short,
  Digits-Same m m' (ptr + 0x7c) e.digits (Same-within m m' (omega arith) (omega (arith, eleven)) s)
      d,
  eleven,
  small,
)

pub IsArchive-Same :
    (m m' : Bytes) (ustar ptr : ℕ) (es : List Entry)
    → Same ustar (ustar + 5) m m'
    → Same ptr (ptr + spans es + 512) m m'
    → IsArchive m ustar ptr es
    → IsArchive m' ustar ptr es
unfolding IsArchive spans
IsArchive-Same m m' ustar ptr [] u s h =
    rw (magic-Same m m' ustar ptr u (Same-within m m' (omega arith) (omega arith) s)) h
IsArchive-Same m m' ustar ptr (e ∷ es) u s (d, h) = (
  Describes-Same m m' ustar ptr e u (Same-within m m' (omega arith) (omega arith) s) d,
  IsArchive-Same m m' ustar (ptr + span e) es u (Same-within m m' (omega arith) (omega arith) s) h,
)

-- The contents that are found lie in the archive.
pub find-within :
    (name : List ℕ) (ptr : ℕ) (es : List Entry)
    → (find name ptr es ≡ (0, 0))
      ⊎ ((ptr ≤ (find name ptr es).1)
          × ((find name ptr es).1 + (find name ptr es).0 ≤ ptr + spans es))
unfolding find
find-within name ptr [] = inl refl
find-within name ptr (e ∷ es) =
    let rest = find-within name (ptr + span e) es in
    let wide = span-enough e in
    elim (Bool-cases (same_name e.name name)) [
      | inl t ↦ rw t (unfold spans in inr (omega arith, omega (arith, wide)))
      | inr f ↦ elim rest [
        | inl z ↦ rw f (inl z)
        | inr (l, r) ↦ rw f (unfold spans in inr (omega (arith, l), omega (arith, r)))
      ]
    ]
