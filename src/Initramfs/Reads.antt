-- ===== src/Initramfs/Reads.antt =====
-- `read` of src/fs/initramfs.c gives the contents of a file, one piece after the other.
use bayos_kernel.Initramfs.{read}
use bayos_kernel.Initramfs.Archive.{Entry, find, initramfs_lookup_lem}
use bayos_kernel.Initramfs.Lookup.{spans}
use bayos_kernel.Initramfs.Frame.{find-within}
use bayos_kernel.Initramfs.Pieces.{
  amount, amount-end, amount-none, reads, total, Ready, Apart, Free, Frame, Ready-Frame, amount-add,
  amount-least, Frame-add, Copied-Frame, Gets, Copied-Gets, Gets-add, Gets-from, Frame-at,
}
use bayos_kernel.Vfs.{File}
use bayos_kernel.Strings.{Bytes, memcpy}
use bayos_kernel.Strings.Copies.{memcpy-none, memcpy-Copied}
use bayos_kernel.Common.{
  ℕ, ◌+◌, ◌-◌, ◌<◌, ◌≤◌, ◌≡◌, ◌≢◌, ◌⊎◌, refl, sym, ap, ◌∙◌, List, [], ◌∷◌, length, arith, some, leb,
  Bool-cases, inl, inr,
}

module _ (fuel ustar archive path : ℕ) (name : List ℕ) (es : List Entry) where
  read_lem :
      (size at offset buf count : ℕ) (filesz : ℕ) (m : Bytes)
      → path ≢ 0
      → length es < fuel
      → length name < fuel
      → Ready m ustar archive path name es
      → find name archive es ≡ (size, at)
      → let n = amount size offset count in
        read fuel ustar archive
          (record { path = path; offset = offset; filesz = filesz })
          buf
          count
          m
        ≡ some (
          n,
          record { path = path; offset = offset + n; filesz = filesz },
          memcpy buf (at + offset) n m,
        )
  unfolding read amount Ready
  read_lem size at offset buf count filesz m ne r l (w, h) e =
      let looked = initramfs_lookup_lem fuel ustar archive path m name es ne r l h w ∙ ap some e in
      elim (Bool-cases (leb size offset)) [
        | inl t ↦
            let z : amount size offset count ≡ 0 =
              amount-end size offset count (ground (arith, t)) in
            rw (looked, t, z, memcpy-none buf (at + offset) m)
              (ap (λ o. some (0, record { path = path; offset = o; filesz = filesz }, m))
                (omega arith))
        | inr f ↦ rw (looked, f) refl
      ]

  within :
      (size at : ℕ)
      → find name archive es ≡ (size, at)
      → (size ≡ 0) ⊎ ((archive ≤ at) × (at + size ≤ archive + spans es))
  within size at e = elim (find-within name archive es) [
    | inl z ↦ inl (ap (λ r. r.0) (sym e ∙ z))
    | inr h ↦ inr (rw e at h)
  ]

  -- Where the contents lie that a read copies, for a buffer that is free.
  source :
      (size at offset n buf count : ℕ)
      → find name archive es ≡ (size, at)
      → n ≤ size - offset
      → n ≤ count
      → Free ustar archive path name es buf count
      → ((buf < at + offset) ⊎ (at + offset + n ≤ buf))
        × ((k : ℕ) → k < size - offset → (at + offset + k < buf) ⊎ (buf + n ≤ at + offset + k))
  unfolding Free Apart
  source size at offset n buf count e s c (u, h, p) = elim (within size at e) [
    | inl z ↦ (omega (arith, z, s), λ k x. absurd (omega (arith, z, x)))
    | inr (lo, hi) ↦ (omega (arith, lo, hi, h, s, c), λ k x. omega (arith, lo, hi, h, s, c, x))
  ]

  Free-later :
      (n buf count left : ℕ)
      → n + left ≤ count
      → Free ustar archive path name es buf count
      → Free ustar archive path name es (buf + n) left
  unfolding Free Apart
  Free-later n buf count left l (u, h, p) =
      (omega (arith, l, u), omega (arith, l, h), omega (arith, l, p))

  reads-step :
      (c : ℕ) (cs : List ℕ) (f f1 f2 : File) (buf n1 n2 : ℕ) (m m1 m2 : Bytes)
      → read fuel ustar archive f buf c m ≡ some (n1, f1, m1)
      → reads fuel ustar archive cs f1 (buf + n1) m1 ≡ some (n2, f2, m2)
      → reads fuel ustar archive (c ∷ cs) f buf m ≡ some (n1 + n2, f2, m2)
  unfolding reads
  reads-step c cs f f1 f2 buf n1 n2 m m1 m2 a b = rw (a, b) refl

  -- What the reads do, if they return `n` bytes together.
  Reading : (counts : List ℕ) (at offset buf filesz n : ℕ) → Bytes → Type 0
  Reading counts at offset buf filesz n m =
      (m' : Bytes) × (reads fuel ustar archive counts
          (record { path = path; offset = offset; filesz = filesz }) buf m
        ≡ some (n, record { path = path; offset = offset + n; filesz = filesz }, m'))
      × Gets buf (at + offset) n m m'
      × Frame buf n m m'

  Reading-none : (at offset buf filesz : ℕ) (m : Bytes) → Reading [] at offset buf filesz 0 m
  unfolding Reading reads Gets Frame
  Reading-none at offset buf filesz m = (
    m,
    ap (λ o. some (0, record { path = path; offset = o; filesz = filesz }, m)) (omega arith),
    (λ k h. absurd (omega arith)),
    λ a h. refl,
  )

  Reading-add :
      (c : ℕ) (cs : List ℕ) (size at offset buf filesz n1 n2 : ℕ) (m : Bytes)
      → n1 + n2 ≤ size - offset
      → ((buf < at + offset) ⊎ (at + offset + n1 ≤ buf))
      → ((k : ℕ) → k < size - offset → (at + offset + k < buf) ⊎ (buf + n1 ≤ at + offset + k))
      → read fuel ustar archive (record { path = path; offset = offset; filesz = filesz }) buf c m
        ≡ some (
          n1,
          record { path = path; offset = offset + n1; filesz = filesz },
          memcpy buf (at + offset) n1 m,
        )
      → Reading cs at (offset + n1) (buf + n1) filesz n2 (memcpy buf (at + offset) n1 m)
      → Reading (c ∷ cs) at offset buf filesz (n1 + n2) m
  unfolding Reading
  Reading-add c cs size at offset buf filesz n1 n2 m l src kept one (m', more, gets, frame) =
      let m1 = memcpy buf (at + offset) n1 m in
      let copied = memcpy-Copied buf (at + offset) n1 m src in
      let f1 = Copied-Frame buf (at + offset) n1 m m1 copied in
      (
        m',
        reads-step c cs _ _ _ buf n1 n2 m m1 m' one more
            ∙ ap (λ o. some (n1 + n2, record { path = path; offset = o; filesz = filesz }, m'))
                (omega arith),
        Gets-add buf (at + offset) n1 n2 m m1 m' (Copied-Gets buf (at + offset) n1 m m1 copied)
            frame
            (let there : at + (offset + n1) ≡ at + offset + n1 = omega arith in
              Gets-from _ _ _ _ m1 m' there gets)
            (λ k h.
              let there : at + offset + n1 + k ≡ at + offset + (n1 + k) = omega arith in
              rw there (
                Frame-at buf n1 m m1 (at + offset + (n1 + k)) f1
                  (kept (n1 + k) (omega (arith, l, h))))),
        Frame-add buf n1 n2 m m1 m' f1 frame,
      )

  reads-from :
      (counts : List ℕ) (size at offset buf filesz n : ℕ) (m : Bytes)
      → amount size offset (total counts) ≡ n
      → path ≢ 0
      → length es < fuel
      → length name < fuel
      → Ready m ustar archive path name es
      → find name archive es ≡ (size, at)
      → Free ustar archive path name es buf (total counts)
      → Reading counts at offset buf filesz n m
  unfolding total
  reads-from [] size at offset buf filesz n m en ne r l w e f =
      let z : n ≡ 0 = sym en ∙ amount-none size offset in rw z (Reading-none at offset buf filesz m)
  reads-from (c ∷ cs) size at offset buf filesz n m en ne r l w e f =
      let n1 = amount size offset c in
      let n2 = amount size (offset + n1) (total cs) in
      let b1 = amount-least size offset c in
      let b2 = amount-least size (offset + n1) (total cs) in
      let m1 = memcpy buf (at + offset) n1 m in
      let s = source size at offset n1 buf (c + total cs) e b1.1 (omega (arith, b1.0)) f in
      let f1 = Copied-Frame buf (at + offset) n1 m m1 (memcpy-Copied buf (at + offset) n1 m s.0) in
      let w1 =
        Ready-Frame ustar archive path name es buf (c + total cs) n1 m m1 (omega (arith, b1.0)) f f1
          w in
      let free = Free-later n1 buf (c + total cs) (total cs) (omega (arith, b1.0)) f in
      let rest =
        reads-from cs size at (offset + n1) (buf + n1) filesz n2 m1 refl ne r l w1 e free in
      let one = read_lem size at offset buf c filesz m ne r l w e in
      rw (sym (amount-add size offset c (total cs) ∙ en)) (
        Reading-add c cs size at offset buf filesz n1 n2 m (omega (arith, b1.1, b2.1)) s.0 s.1 one
          rest)

  -- Reads into a free buffer, one behind the other, return together as many bytes as are asked for, or
  -- as there are behind the offset; the buffer then has these bytes of the file, and no other byte has changed.
  pub reads-Gets :
      (counts : List ℕ) (size at offset buf filesz : ℕ) (m : Bytes)
      → path ≢ 0
      → length es < fuel
      → length name < fuel
      → Ready m ustar archive path name es
      → find name archive es ≡ (size, at)
      → Free ustar archive path name es buf (total counts)
      → let n = amount size offset (total counts) in
        (m' : Bytes) × (reads fuel ustar archive counts
            (record { path = path; offset = offset; filesz = filesz })
            buf
            m
          ≡ some (n, record { path = path; offset = offset + n; filesz = filesz }, m'))
        × Gets buf (at + offset) n m m'
        × Frame buf n m m'
  unfolding Reading
  reads-Gets counts size at offset buf filesz m ne r l w e f =
      reads-from counts size at offset buf filesz _ m refl ne r l w e f
