-- ===== src/Alloc/Spec.antt =====
-- What `alloc` and `free` promise, on the blocks of the heap: first fit, and joining of neighbours.
use bayos_kernel.Common.{
  ℕ, ◌+◌, ◌-◌, ◌≤◌, ◌<◌, ◌≡◌, refl, ◌∙◌, ap, ◌≢◌, ◌⊎◌, inl, inr, Bool, true, false, ◌&&◌, List, [],
  ◌∷◌, arith, leb, ◌==◌, if◌then◌else◌, Bool-cases,
}
use bayos_kernel.Alloc.{is_free}
use bayos_kernel.Alloc.Blocks.{Block, free_block, used_block, span, link, headed_free, IsTidy}

abbrev pub fits : ℕ → Block → Bool
fits n b = leb (n + 0x40) b.size && is_free b.status

abbrev pub is_exact : ℕ → Block → Bool
is_exact n b = b.size == n && is_free b.status

-- The specification: the first free block of size `n`, or with room for `n` bytes and another
-- block, is taken; 0 if there is none. `p` is the address of the first header.
unfoldable pub first_fit : ℕ → ℕ → List Block → ℕ × List Block
first_fit n p [] = (0, [])
first_fit n p (b ∷ bs) =
    let rest = first_fit n (0x20 + b.size + p) bs in
    if is_exact n b
    then (p + 0x20, used_block n ∷ bs)
    else if fits n b
    then (p + 0x20, used_block n ∷ free_block (b.size - n - 0x20) ∷ bs)
    else (rest.0, b ∷ rest.1)

module _ (n p : ℕ) (b : Block) (bs : List Block) where
  pub first_fit-exact : is_exact n b ≡ true → first_fit n p (b ∷ bs) ≡ (p + 0x20, used_block n ∷ bs)
  unfolding first_fit
  first_fit-exact e = rw e

  pub first_fit-cut :
      is_exact n b ≡ false
      → fits n b ≡ true
      → first_fit n p (b ∷ bs) ≡ (p + 0x20, used_block n ∷ free_block (b.size - n - 0x20) ∷ bs)
  unfolding first_fit
  first_fit-cut e f = rw (e, f)

  pub first_fit-skip :
      is_exact n b ≡ false
      → fits n b ≡ false
      → first_fit n p (b ∷ bs)
        ≡ ((first_fit n (0x20 + b.size + p) bs).0, b ∷ (first_fit n (0x20 + b.size + p) bs).1)
  unfolding first_fit
  first_fit-skip e f = rw (e, f)

pub link-first_fit : (n p a : ℕ) (bs : List Block) → link a (first_fit n p bs).1 ≡ link a bs
unfolding first_fit
link-first_fit n p a [] = refl
link-first_fit n p a (b ∷ bs) = ground arith

-- First fit neither grows nor shrinks the arena.
pub span-first_fit : (n p : ℕ) (bs : List Block) → span (first_fit n p bs).1 ≡ span bs
unfolding first_fit
span-first_fit n p [] = refl
span-first_fit n p (b ∷ bs) = ground (arith, span-first_fit n (0x20 + b.size + p) bs)

headed_free-first_fit :
    (n p : ℕ) (bs : List Block) → headed_free bs ≡ false → headed_free (first_fit n p bs).1 ≡ false
unfolding first_fit
headed_free-first_fit n p [] h = refl
headed_free-first_fit n p (b ∷ bs) h = ground arith

pub first_fit-IsTidy :
    (n p : ℕ) (bs : List Block) → 0x20 ≤ n → IsTidy bs → IsTidy (first_fit n p bs).1
unfolding first_fit
first_fit-IsTidy n p [] h t = tt
first_fit-IsTidy n p (b ∷ bs) h t = ground (
  arith,
  first_fit-IsTidy n (0x20 + b.size + p) bs,
  headed_free-first_fit n (0x20 + b.size + p) bs,
)

-- A free block takes in a free block behind it.
unfoldable pub merge_front : Block → List Block → List Block
merge_front b [] = b ∷ []
merge_front b (c ∷ cs) =
    if is_free b.status && is_free c.status
    then free_block (c.size + b.size + 0x20) ∷ cs
    else b ∷ c ∷ cs

-- The specification of `free`: the block whose bytes begin at `ptr` becomes free, and is joined to
-- the free blocks beside it. `p` is the address of the first header.
unfoldable pub free_blocks : ℕ → ℕ → List Block → List Block
free_blocks ptr p [] = []
free_blocks ptr p (b ∷ bs) =
    let rest = free_blocks ptr (0x20 + b.size + p) bs in
    if ptr == p + 0x20 then merge_front (free_block b.size) bs else merge_front b rest

-- `ptr` is where the bytes of a block in use begin.
abbrev pub Owns : ℕ → ℕ → List Block → Type 0
Owns ptr p [] = ⊥
Owns ptr p (b ∷ bs) =
    ((ptr ≡ p + 0x20) × (is_free b.status ≡ false)) ⊎ Owns ptr (0x20 + b.size + p) bs

pub Owns-lt : (ptr p : ℕ) (bs : List Block) → Owns ptr p bs → p + 0x20 ≤ ptr
Owns-lt ptr p [] o = absurd o
Owns-lt ptr p (b ∷ bs) (inl o) = omega arith
Owns-lt ptr p (b ∷ bs) (inr o) = omega (arith, Owns-lt ptr (0x20 + b.size + p) bs o)

span-merge_front : (b : Block) (bs : List Block) → span (merge_front b bs) ≡ span (b ∷ bs)
unfolding merge_front
span-merge_front b [] = refl
span-merge_front b (c ∷ cs) = ground arith

-- Freeing neither grows nor shrinks the arena.
pub span-free_blocks : (ptr p : ℕ) (bs : List Block) → span (free_blocks ptr p bs) ≡ span bs
unfolding free_blocks
span-free_blocks ptr p [] = refl
span-free_blocks ptr p (b ∷ bs) = ground (
  arith,
  span-free_blocks ptr (0x20 + b.size + p) bs,
  span-merge_front (free_block b.size) bs,
  span-merge_front b (free_blocks ptr (0x20 + b.size + p) bs),
)

pub headed_free-merge_front :
    (b : Block) (bs : List Block) → headed_free (merge_front b bs) ≡ is_free b.status
unfolding merge_front
headed_free-merge_front b [] = refl
headed_free-merge_front b (c ∷ cs) = ground arith

-- At most one join is due, since the blocks behind are tidy.
merge_front-IsTidy :
    (b : Block) (bs : List Block) → 0x20 ≤ b.size → IsTidy bs → IsTidy (merge_front b bs)
unfolding merge_front
merge_front-IsTidy b [] h t = ground arith
merge_front-IsTidy b (c ∷ cs) h t = ground arith

pub free_blocks-IsTidy : (ptr p : ℕ) (bs : List Block) → IsTidy bs → IsTidy (free_blocks ptr p bs)
unfolding free_blocks
free_blocks-IsTidy ptr p [] t = tt
free_blocks-IsTidy ptr p (b ∷ bs) t = elim (Bool-cases (ptr == p + 0x20)) [
  | inl e ↦ rw e (merge_front-IsTidy (free_block b.size) bs t.0 t.2)
  | inr e ↦ rw e (merge_front-IsTidy b _ t.0 (free_blocks-IsTidy ptr (0x20 + b.size + p) bs t.2))
]

module _ (ptr p : ℕ) (b : Block) (bs : List Block) where
  pub free_blocks-here :
      ptr ≡ p + 0x20 → free_blocks ptr p (b ∷ bs) ≡ merge_front (free_block b.size) bs
  unfolding free_blocks
  free_blocks-here e = ground arith

  pub free_blocks-skip :
      ptr ≢ p + 0x20
      → free_blocks ptr p (b ∷ bs) ≡ merge_front b (free_blocks ptr (0x20 + b.size + p) bs)
  unfolding free_blocks
  free_blocks-skip e = ground arith

pub merge_front_apart :
    (b : Block) (bs : List Block)
    → (is_free b.status && headed_free bs) ≡ false
    → merge_front b bs ≡ b ∷ bs
unfolding merge_front
merge_front_apart b [] h = refl
merge_front_apart b (c ∷ cs) h = ground arith

eq_free_block : (b : Block) → is_free b.status ≡ true → free_block b.size ≡ b
eq_free_block b h = ground arith

pub first_fit-lt :
    (n p : ℕ) (bs : List Block) → 0 < (first_fit n p bs).0 → p + 0x20 ≤ (first_fit n p bs).0
unfolding first_fit
first_fit-lt n p [] h = absurd (omega arith)
first_fit-lt n p (b ∷ bs) h = ground (arith, first_fit-lt n (0x20 + b.size + p) bs)

-- What the two blocks of a cut become when the first is freed.
uncut :
    (n p : ℕ) (b : Block) (bs : List Block)
    → fits n b ≡ true
    → IsTidy (b ∷ bs)
    → free_blocks (p + 0x20) p (used_block n ∷ free_block (b.size - n - 0x20) ∷ bs) ≡ b ∷ bs
unfolding merge_front
uncut n p b bs f t =
    free_blocks-here (p + 0x20) p (used_block n) _ refl
    ∙ ap (λ c. c ∷ bs) (ground (arith, eq_free_block b))

-- Freeing what was just allocated gives the blocks back as they were.
pub free_blocks-first_fit :
    (n p : ℕ) (bs : List Block)
    → IsTidy bs
    → 0 < (first_fit n p bs).0
    → free_blocks (first_fit n p bs).0 p (first_fit n p bs).1 ≡ bs
free_blocks-first_fit n p [] t h = unfold first_fit free_blocks in refl
free_blocks-first_fit n p (b ∷ bs) t h = elim (Bool-cases (is_exact n b)) [
  | inl e ↦
      rw (first_fit-exact n p b bs e, free_blocks-here (p + 0x20) p (used_block n) bs refl)
        (ground (arith, merge_front_apart (free_block n) bs, eq_free_block b))
  | inr e ↦ elim (Bool-cases (fits n b)) [
    | inl f ↦ rw (first_fit-cut n p b bs e f) (uncut n p b bs f t)
    | inr f ↦
        let q = (first_fit n (0x20 + b.size + p) bs).0 in
        let found : 0 < q = ground (arith, first_fit-skip n p b bs e f) in
        rw
          (
            first_fit-skip n p b bs e f,
            free_blocks-skip q p b (first_fit n (0x20 + b.size + p) bs).1
                (omega (arith, first_fit-lt n (0x20 + b.size + p) bs found)),
            free_blocks-first_fit n (0x20 + b.size + p) bs t.2 found,
          )
          (merge_front_apart b bs t.1)
  ]
]
