-- ===== src/Strings/Copies.antt =====
-- The blocks that `memcpy`, `memmove` and `memset` of src/string.c write.
use bayos_kernel.Common.{ap, refl}
use bayos_kernel.Common.{==_iff}
use bayos_kernel.Strings.{Bytes, put, copy_up, copy_down, memcpy, memmove, set_loop, memset}
use bayos_kernel.Common.{
  ℕ, zero, suc, ◌+◌, ◌-◌, ◌%◌, ◌≤◌, ◌<◌, ◌≡◌, sym, ◌∙◌, ◌≢◌, ◌⊎◌, inl, inr, ◌&&◌, arith, ltb, leb,
  ◌==◌, if◌then◌else◌, Bool-cases,
}

put-here : (m : Bytes) (p byte a : ℕ) → a ≡ p → put m p byte a ≡ byte
unfolding put
put-here m p byte a e = ground arith

put-other : (m : Bytes) (p byte a : ℕ) → a ≢ p → put m p byte a ≡ m a
unfolding put
put-other m p byte a ne = ground arith

-- the byte at `a` of a block from `lo` to `hi`
unfoldable pub block : (lo hi a : ℕ) (inside outside : ℕ) → ℕ
block lo hi a inside outside = if leb lo a && ltb a hi then inside else outside

-- `m'` has the `n` bytes of `m` from `src` on at `dest`, and is `m` elsewhere.
unfoldable pub Copied : (dest src n : ℕ) → Bytes → Bytes → Type 0
Copied dest src n m m' = (a : ℕ) → m' a ≡ block dest (dest + n) a (m (src + (a - dest))) (m a)

pub block-inside : {lo hi a : ℕ} (x y : ℕ) → lo ≤ a → a < hi → block lo hi a x y ≡ x
block-inside x y p q = unfold block in ground (arith, p, q)

pub block-outside : {lo hi a : ℕ} (x y : ℕ) → (a < lo) ⊎ (hi ≤ a) → block lo hi a x y ≡ y
block-outside x y p = unfold block in ground (arith, p)

from_zero : (s n a x y : ℕ) → block (s + 0) (s + (0 + n)) a x y ≡ block s (s + n) a x y
from_zero s n a x y = unfold block in ground arith

copy_up_lem :
    (rounds i dest src : ℕ) (m : Bytes) (a : ℕ)
    → (dest < src) ⊎ (src + (i + rounds) ≤ dest)
    → copy_up rounds i dest src m a
      ≡ block (dest + i) (dest + (i + rounds)) a (m (src + (a - dest))) (m a)
unfolding copy_up
copy_up_lem zero i dest src m a h = sym (block-outside _ _ (omega arith))
copy_up_lem (suc rounds) i dest src m a h =
    let m1 = put m (dest + i) (m (src + i)) in
    let rest = copy_up_lem rounds (i + 1) dest src m1 a (ground (arith, h)) in
    elim (Bool-cases (a == dest + i)) [
      | inl t ↦
          let e = (==_iff a (dest + i)).0 t in
          rest
          ∙ block-outside _ _ (inl (omega (arith, e)))
          ∙ put-here m (dest + i) (m (src + i)) a e
          ∙ ap (λ j. m (src + j)) (omega (arith, e))
          ∙ sym (block-inside _ _ (omega (arith, e)) (omega (arith, e)))
      | inr f ↦ elim (Bool-cases (leb (dest + i) a && ltb a (dest + (i + suc rounds)))) [
        | inl t ↦
            rest
            ∙ block-inside _ _ (ground (arith, f, t)) (ground (arith, f, t))
            ∙ put-other m (dest + i) (m (src + i)) (src + (a - dest)) (ground (arith, f, t, h))
            ∙ sym (block-inside _ _ (ground (arith, f, t)) (ground (arith, f, t)))
        | inr o ↦
            rest
            ∙ block-outside _ _ (ground (arith, f, o))
            ∙ put-other m (dest + i) (m (src + i)) a (ground (arith, f))
            ∙ sym (block-outside _ _ (ground (arith, f, o)))
      ]
    ]

copy_down_lem :
    (i dest src : ℕ) (m : Bytes) (a : ℕ)
    → src < dest
    → copy_down i dest src m a ≡ block dest (dest + i) a (m (src + (a - dest))) (m a)
unfolding copy_down
copy_down_lem zero dest src m a h = sym (block-outside _ _ (omega arith))
copy_down_lem (suc i) dest src m a h =
    let m1 = put m (dest + i) (m (src + i)) in
    let rest = copy_down_lem i dest src m1 a h in
    elim (Bool-cases (a == dest + i)) [
      | inl t ↦
          let e = (==_iff a (dest + i)).0 t in
          rest
          ∙ block-outside _ _ (inr (omega (arith, e)))
          ∙ put-here m (dest + i) (m (src + i)) a e
          ∙ ap (λ j. m (src + j)) (omega (arith, e))
          ∙ sym (block-inside _ _ (omega (arith, e)) (omega (arith, e)))
      | inr f ↦ elim (Bool-cases (leb dest a && ltb a (dest + suc i))) [
        | inl t ↦
            rest
            ∙ block-inside _ _ (ground (arith, f, t)) (ground (arith, f, t))
            ∙ put-other m (dest + i) (m (src + i)) (src + (a - dest)) (ground (arith, f, t, h))
            ∙ sym (block-inside _ _ (ground (arith, f, t)) (ground (arith, f, t)))
        | inr o ↦
            rest
            ∙ block-outside _ _ (ground (arith, f, o))
            ∙ put-other m (dest + i) (m (src + i)) a (ground (arith, f))
            ∙ sym (block-outside _ _ (ground (arith, f, o)))
      ]
    ]

set_loop_lem :
    (rounds i s c : ℕ) (m : Bytes) (a : ℕ)
    → set_loop rounds i s c m a ≡ block (s + i) (s + (i + rounds)) a (c % 256) (m a)
unfolding set_loop
set_loop_lem zero i s c m a = sym (block-outside _ _ (omega arith))
set_loop_lem (suc rounds) i s c m a =
    let rest = set_loop_lem rounds (i + 1) s c (put m (s + i) (c % 256)) a in
    elim (Bool-cases (a == s + i)) [
      | inl t ↦
          let e = (==_iff a (s + i)).0 t in
          rest
          ∙ block-outside _ _ (inl (omega (arith, e)))
          ∙ put-here m (s + i) (c % 256) a e
          ∙ sym (block-inside _ _ (omega (arith, e)) (omega (arith, e)))
      | inr f ↦ elim (Bool-cases (leb (s + i) a && ltb a (s + (i + suc rounds)))) [
        | inl t ↦
            rest
            ∙ block-inside _ _ (ground (arith, f, t)) (ground (arith, f, t))
            ∙ sym (block-inside _ _ (ground (arith, f, t)) (ground (arith, f, t)))
        | inr o ↦
            rest
            ∙ block-outside _ _ (ground (arith, f, o))
            ∙ put-other m (s + i) (c % 256) a (ground (arith, f))
            ∙ sym (block-outside _ _ (ground (arith, f, o)))
      ]
    ]

-- `memmove` copies the block as it was before, however the two blocks overlap, and writes nothing
-- else.
pub memmove-Copied : (dest src n : ℕ) (m : Bytes) → Copied dest src n m (memmove dest src n m)
unfolding memmove Copied
memmove-Copied dest src n m a = elim (Bool-cases (ltb dest src)) [
  | inl up ↦ rw up (copy_up_lem n 0 dest src m a (ground (arith, up)) ∙ from_zero dest n a _ _)
  | inr f ↦ elim (Bool-cases (ltb src dest)) [
    | inl down ↦ rw (f, down) (copy_down_lem n dest src m a (ground (arith, down)))
    | inr g ↦ let same : src ≡ dest = ground (arith, f, g) in rw (f, g) (still dest src n m a same)
  ]
]
  where
    still :
        (dest src n : ℕ) (m : Bytes) (a : ℕ)
        → src ≡ dest
        → m a ≡ block dest (dest + n) a (m (src + (a - dest))) (m a)
    still dest src n m a e = elim (Bool-cases (leb dest a && ltb a (dest + n))) [
      | inl t ↦
          ap m (ground (arith, e, t))
          ∙ sym (block-inside _ _ (ground (arith, t)) (ground (arith, t)))
      | inr o ↦ sym (block-outside _ _ (ground (arith, o)))
    ]

pub memcpy-none : (dest src : ℕ) (m : Bytes) → memcpy dest src 0 m ≡ m
unfolding memcpy copy_up
memcpy-none dest src m = refl

-- `memcpy` copies the block, and writes nothing else, if the destination begins in front of the
-- source or behind its end.
pub memcpy-Copied :
    (dest src n : ℕ) (m : Bytes)
    → (dest < src) ⊎ (src + n ≤ dest)
    → Copied dest src n m (memcpy dest src n m)
unfolding memcpy Copied
memcpy-Copied dest src n m h a =
    copy_up_lem n 0 dest src m a (ground (arith, h)) ∙ from_zero dest n a _ _

-- `memset` writes the low byte of `c` to the `n` bytes from `s` on, and nothing else.
pub memset_lem :
    (s c n : ℕ) (m : Bytes) (a : ℕ) → memset s c n m a ≡ block s (s + n) a (c % 256) (m a)
unfolding memset
memset_lem s c n m a = set_loop_lem n 0 s c m a ∙ from_zero s n a _ _
