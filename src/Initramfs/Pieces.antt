-- ===== src/Initramfs/Pieces.antt =====
-- Calls of `read` of src/fs/initramfs.c one after the other, and the blocks of memory that they use.
use bayos_kernel.Initramfs.{read}
use bayos_kernel.Initramfs.Archive.{Entry, IsArchive}
use bayos_kernel.Initramfs.Lookup.{spans}
use bayos_kernel.Initramfs.Frame.{Same, Holds-Same, IsArchive-Same}
use bayos_kernel.Vfs.{File}
use bayos_kernel.Strings.{Bytes}
use bayos_kernel.Strings.Copies.{block-inside, block-outside, Copied}
use bayos_kernel.Strings.Compares.{Holds}
use bayos_kernel.Common.{
  ℕ, ◌+◌, ◌-◌, ◌<◌, ◌≤◌, ◌≡◌, ◌⊎◌, sym, ap, ◌∙◌, List, [], ◌∷◌, length, arith, Option, some,
  if◌then◌else◌, ltb, Bool-cases, inl, inr, ◌>>=◌,
}

-- How many of `count` bytes there are behind the offset.
unfoldable pub amount : (size offset count : ℕ) → ℕ
amount size offset count = if ltb count (size - offset) then count else size - offset

pub amount-end : (size offset count : ℕ) → size ≤ offset → amount size offset count ≡ 0
unfolding amount
amount-end size offset count l = ground (arith, l)

pub amount-none : (size offset : ℕ) → amount size offset 0 ≡ 0
unfolding amount
amount-none size offset = ground arith

-- The calls with these counts, each into the buffer behind the bytes of the one before: how many
-- bytes they return together, and the file and the memory behind them.
unfoldable pub reads :
    (fuel ustar archive : ℕ) → List ℕ → (f : File) (buf : ℕ) → Bytes → Option (ℕ × File × Bytes)
unfolding read
reads fuel ustar archive [] f buf m = some (0, f, m)
reads fuel ustar archive (count ∷ counts) f buf m = do
  (n, f', m') ← read fuel ustar archive f buf count m
  (rest, f'', m'') ← reads fuel ustar archive counts f' (buf + n) m'
  some (n + rest, f'', m'')

unfoldable pub total : List ℕ → ℕ
total [] = 0
total (c ∷ cs) = c + total cs

-- The archive with the files `es`, the string "ustar" and the string `name` at `path` are in memory.
unfoldable pub Ready : Bytes → (ustar archive path : ℕ) → List ℕ → List Entry → Type 0
Ready m ustar archive path name es = IsArchive m ustar archive es × Holds m path name

-- The block at `p` and the block of the buffer have no byte in common.
unfoldable pub Apart : (p n buf count : ℕ) → Type 0
Apart p n buf count = (p + n ≤ buf) ⊎ (buf + count ≤ p)

-- The buffer is no part of the archive and of the two strings.
unfoldable pub Free : (ustar archive path : ℕ) → List ℕ → List Entry → (buf count : ℕ) → Type 0
Free ustar archive path name es buf count =
    Apart ustar 5 buf count
    × Apart archive (spans es + 512) buf count
    × Apart path (length name + 1) buf count

-- Nothing but the block at `buf` is written.
unfoldable pub Frame : (buf count : ℕ) → Bytes → Bytes → Type 0
Frame buf count m m' = (a : ℕ) → (a < buf) ⊎ (buf + count ≤ a) → m' a ≡ m a

pub Same-Apart :
    (p n buf count used : ℕ) (m m' : Bytes)
    → used ≤ count
    → Apart p n buf count
    → Frame buf used m m'
    → Same p (p + n) m m'
unfolding Same Apart Frame
Same-Apart p n buf count used m m' l h f a x y = f a (ground (arith, h, x, y, l))

pub Ready-Frame :
    (ustar archive path : ℕ) (name : List ℕ) (es : List Entry) (buf count used : ℕ) (m m' : Bytes)
    → used ≤ count
    → Free ustar archive path name es buf count
    → Frame buf used m m'
    → Ready m ustar archive path name es
    → Ready m' ustar archive path name es
unfolding Ready Free
Ready-Frame ustar archive path name es buf count used m m' l (u, r, p) f (w, h) = (
  IsArchive-Same m m' ustar archive es (Same-Apart ustar 5 buf count used m m' l u f)
      (rw (assoc archive (spans es))
        (Same-Apart archive (spans es + 512) buf count used m m' l r f))
      w,
  Holds-Same m m' path name (Same-Apart path (length name + 1) buf count used m m' l p f) h,
)
  where
    assoc : (a b : ℕ) → a + b + 512 ≡ a + (b + 512)
    assoc a b = omega arith

pub amount-add :
    (size offset c t : ℕ)
    → amount size offset c + amount size (offset + amount size offset c) t
      ≡ amount size offset (c + t)
unfolding amount
amount-add size offset c t = elim (Bool-cases (ltb c (size - offset))) [
  | inl h ↦ rw h (ground (arith, h))
  | inr h ↦ rw h (ground (arith, h))
]

pub amount-least :
    (size offset c : ℕ) → (amount size offset c ≤ c) × (amount size offset c ≤ size - offset)
unfolding amount
amount-least size offset c = ground arith

pub Frame-add :
    (buf n r : ℕ) (m m1 m' : Bytes)
    → Frame buf n m m1
    → Frame (buf + n) r m1 m'
    → Frame buf (n + r) m m'
unfolding Frame
Frame-add buf n r m m1 m' f g a h =
    let later : (a < buf + n) ⊎ (buf + n + r ≤ a) = omega (arith, h) in
    let first : (a < buf) ⊎ (buf + n ≤ a) = omega (arith, h) in g a later ∙ f a first

pub Copied-Frame : (dest src n : ℕ) (m m' : Bytes) → Copied dest src n m m' → Frame dest n m m'
unfolding Copied Frame
Copied-Frame dest src n m m' c a h = c a ∙ block-outside _ _ h

-- The `n` bytes at `buf` in `m'` are those at `src` in `m`.
unfoldable pub Gets : (buf src n : ℕ) → Bytes → Bytes → Type 0
Gets buf src n m m' = (k : ℕ) → k < n → m' (buf + k) ≡ m (src + k)

pub Copied-Gets : (dest src n : ℕ) (m m' : Bytes) → Copied dest src n m m' → Gets dest src n m m'
unfolding Copied Gets
Copied-Gets dest src n m m' c k h =
    c (dest + k)
    ∙ block-inside _ _ (omega arith) (omega arith)
    ∙ ap (λ j. m (src + j)) (omega arith)

pub Gets-add :
    (buf src n r : ℕ) (m m1 m' : Bytes)
    → Gets buf src n m m1
    → Frame (buf + n) r m1 m'
    → Gets (buf + n) (src + n) r m1 m'
    → ((k : ℕ) → k < r → m1 (src + n + k) ≡ m (src + n + k))
    → Gets buf src (n + r) m m'
unfolding Gets Frame
Gets-add buf src n r m m1 m' g f later kept k h = elim (Bool-cases (ltb k n)) [
  | inl t ↦ let early : k < n = ground (arith, t) in f (buf + k) (inl (omega arith)) ∙ g k early
  | inr t ↦
      let late : n ≤ k = ground (arith, t) in
      let there : buf + k ≡ buf + n + (k - n) = omega (arith, late) in
      let here : src + k ≡ src + n + (k - n) = omega (arith, late) in
      let in_rest : k - n < r = omega (arith, late, h) in
      ap m' there ∙ later (k - n) in_rest ∙ kept (k - n) in_rest ∙ ap m (sym here)
]

pub Gets-from :
    (buf n src src' : ℕ) (m m' : Bytes) → src ≡ src' → Gets buf src n m m' → Gets buf src' n m m'
unfolding Gets
Gets-from buf n src src' m m' e g k h = g k h ∙ ap (λ s. m (s + k)) e

pub Frame-at :
    (buf n : ℕ) (m m' : Bytes) (a : ℕ) → Frame buf n m m' → (a < buf) ⊎ (buf + n ≤ a) → m' a ≡ m a
unfolding Frame
Frame-at buf n m m' a f h = f a h
