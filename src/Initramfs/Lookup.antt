-- ===== src/Initramfs/Lookup.antt =====
-- `initramfs_lookup` of src/fs/initramfs.c finds the first file with a name.
use bayos_kernel.Initramfs.{initramfs_lookup}
use bayos_kernel.Initramfs.Archive.{Entry, size_of, span, IsArchive, find, initramfs_lookup_lem}
use bayos_kernel.Strings.{Bytes}
use bayos_kernel.Strings.Compares.{Holds}
use bayos_kernel.Strings.Names.{same_name, same_name_iff}
use bayos_kernel.Common.{
  ℕ, ◌+◌, ◌<◌, ◌≡◌, ◌≢◌, ◌⊎◌, refl, ap, ◌∙◌, List, [], ◌∷◌, ◌++◌, length, arith, some, Bool-cases,
  inl, inr,
}

-- No file of these has the name.
unfoldable pub NoneNamed : List ℕ → List Entry → Type 0
NoneNamed name [] = Unit
NoneNamed name (e ∷ es) = (e.name ≢ name) × NoneNamed name es

-- How far behind the first header the files reach.
unfoldable pub spans : List Entry → ℕ
spans [] = 0
spans (e ∷ es) = span e + spans es

-- The size and the address of the contents of the first file with the name, or zeros if there is none.
unfoldable pub First : (name : List ℕ) (ptr : ℕ) → List Entry → (size out : ℕ) → Type 0
First name ptr es size out =
    ((before : List Entry) × (e : Entry) × (after : List Entry) × (es ≡ before ++ (e ∷ after))
      × NoneNamed name before
      × (e.name ≡ name)
      × (size ≡ size_of e)
      × (out ≡ ptr + spans before + 512))
    ⊎ (NoneNamed name es × (size ≡ 0) × (out ≡ 0))

First-later :
    (name : List ℕ) (ptr : ℕ) (e : Entry) (es : List Entry) (size out : ℕ)
    → e.name ≢ name
    → First name (ptr + span e) es size out
    → First name ptr (e ∷ es) size out
unfolding First NoneNamed spans
First-later name ptr e es size out ne (inl (before, f, after, split, others, same, s, o)) =
    inl (e ∷ before, f, after, ap (λ l. e ∷ l) split, (ne, others), same, s, o ∙ omega arith)
First-later name ptr e es size out ne (inr (others, s, o)) = inr ((ne, others), s, o)

find-First :
    (name : List ℕ) (ptr : ℕ) (es : List Entry)
    → let r = find name ptr es in First name ptr es r.0 r.1
unfolding find
find-First name ptr [] = unfold First NoneNamed in inr (tt, refl, refl)
find-First name ptr (e ∷ es) =
    let rest = find-First name (ptr + span e) es in
    elim (Bool-cases (same_name e.name name)) [
      | inl t ↦ rw t (
          unfold First NoneNamed spans in
          inl ([], e, es, refl, tt, (same_name_iff e.name name).0 t, refl, omega arith))
      | inr f ↦
          let ne : e.name ≢ name = λ q. ground (arith, f, (same_name_iff e.name name).1 q) in
          rw f (First-later name ptr e es _ _ ne rest)
    ]

-- `initramfs_lookup` of a name in an archive returns the size of the first file with that name and
-- sets `out` to the address of its contents; it returns 0 and leaves `out` alone if no file has the
-- name. The fuel is to be more than the number of the files and than the length of the name.
pub initramfs_lookup-First :
    (fuel ustar archive filename : ℕ) (m : Bytes) (name : List ℕ) (es : List Entry)
    → filename ≢ 0
    → length es < fuel
    → length name < fuel
    → Holds m filename name
    → IsArchive m ustar archive es
    → (size : ℕ) × (out : ℕ) × (initramfs_lookup fuel ustar archive filename m ≡ some (size, out))
      × First name archive es size out
initramfs_lookup-First fuel ustar archive filename m name es ne r l h w = (
  _,
  _,
  initramfs_lookup_lem fuel ustar archive filename m name es ne r l h w,
  find-First name archive es,
)
