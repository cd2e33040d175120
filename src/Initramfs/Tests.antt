-- ===== src/Initramfs/Tests.antt =====
-- A small archive in memory, for src/fs/initramfs.c.
use bayos_kernel.Initramfs.Lookup.{spans}
use bayos_kernel.Initramfs.Archive.{Describes, find}
use bayos_kernel.Initramfs.Pieces.{Apart}
use bayos_kernel.Initramfs.{initramfs_lookup}
use bayos_kernel.Initramfs.Archive.{Entry, IsArchive, Describes, find, size_of, span}
use bayos_kernel.Initramfs.Lookup.{First, spans, initramfs_lookup-First}
use bayos_kernel.Initramfs.Pieces.{Ready, Free, Apart, Gets, Frame, amount, reads, total}
use bayos_kernel.Initramfs.Reads.{reads-Gets}
use bayos_kernel.Strings.{Bytes, memcmp, compare_loop}
use bayos_kernel.Strings.Names.{same_name}
use bayos_kernel.Initramfs.Octal.{Digits, octal}
use bayos_kernel.Strings.Compares.{Holds}
use bayos_kernel.Common.{
  ℕ, ◌+◌, ◌≡◌, refl, List, [], ◌∷◌, arith, some, if◌then◌else◌, ◌==◌, inl, inr,
}

-- The bytes of a list from `p` on, in front of other ones.
text : ℕ → List ℕ → Bytes → Bytes
text p [] m a = m a
text p (c ∷ cs) m a = let rest = text (p + 1) cs m a in if a == p then c else rest

abbrev archived : List Entry
archived =
    record { name = b'/' ∷ b'a' ∷ []; digits = 0 ∷ 0 ∷ 0 ∷ 0 ∷ 0 ∷ 0 ∷ 0 ∷ 0 ∷ 0 ∷ 0 ∷ 3 ∷ [] } ∷ []

abbrev path_a : List ℕ
path_a = b'/' ∷ b'a' ∷ []

abbrev magic : List ℕ
magic = b'u' ∷ b's' ∷ b't' ∷ b'a' ∷ b'r' ∷ []

abbrev three : List ℕ
three = b'0' ∷ b'0' ∷ b'0' ∷ b'0' ∷ b'0' ∷ b'0' ∷ b'0' ∷ b'0' ∷ b'0' ∷ b'0' ∷ b'3' ∷ []

-- The archive is at 4096, "ustar" at 100, and the path at 200.
memory : Bytes
memory = text 100 magic (
    text 200 path_a (
      text 4097 path_a (
        text (4096 + 257) magic
          (text (4096 + 0x7c) three (text (4096 + 512) (7 ∷ 8 ∷ 9 ∷ []) (λ a. 0))))))

memory-Ready : Ready memory 100 4096 200 path_a archived
unfolding Ready IsArchive Describes Holds Digits memory text memcmp compare_loop size_of octal span
memory-Ready = (
  (
    (
      refl,
      (refl, omega arith, (refl, omega arith, refl)),
      omega arith,
      (
        refl,
        omega arith,
        (
          refl,
          omega arith,
          (
            refl,
            omega arith,
            (
              refl,
              omega arith,
              (
                refl,
                omega arith,
                (
                  refl,
                  omega arith,
                  (
                    refl,
                    omega arith,
                    (
                      refl,
                      omega arith,
                      (refl, omega arith, (refl, omega arith, (refl, omega arith, tt))),
                    ),
                  ),
                ),
              ),
            ),
          ),
        ),
      ),
      refl,
      omega arith,
    ),
    refl,
  ),
  (refl, omega arith, (refl, omega arith, refl)),
)

memory-IsArchive : IsArchive memory 100 4096 archived
unfolding Ready
memory-IsArchive = memory-Ready.0

memory-Holds : Holds memory 200 path_a
unfolding Ready
memory-Holds = memory-Ready.1

initramfs_lookup-First_example :
    (size : ℕ) × (out : ℕ) × (initramfs_lookup 5 100 4096 200 memory ≡ some (size, out))
    × First path_a 4096 archived size out
initramfs_lookup-First_example =
    initramfs_lookup-First 5 100 4096 200 memory path_a archived (omega arith) (omega arith)
      (omega arith) memory-Holds memory-IsArchive

found : find path_a 4096 archived ≡ (3, 4608)
unfolding find same_name size_of octal
found = refl

buffer-Free : Free 100 4096 200 path_a archived 300 (total (2 ∷ 2 ∷ []))
unfolding Free Apart total spans
buffer-Free = (inl (omega arith), inr (omega arith), inl (omega arith))

-- Two calls for two bytes each, of the file of three bytes.
reads-Gets_example :
    (m' : Bytes) × (reads 5 100 4096
        (2 ∷ 2 ∷ [])
        (record { path = 200; offset = 0; filesz = 3 })
        300
        memory
      ≡ some (
        amount 3 0 (total (2 ∷ 2 ∷ [])),
        record { path = 200; offset = 0 + amount 3 0 (total (2 ∷ 2 ∷ [])); filesz = 3 },
        m',
      ))
    × Gets 300 (4608 + 0) (amount 3 0 (total (2 ∷ 2 ∷ []))) memory m'
    × Frame 300 (amount 3 0 (total (2 ∷ 2 ∷ []))) memory m'
reads-Gets_example =
    reads-Gets 5 100 4096 200 path_a archived (2 ∷ 2 ∷ []) 3 4608 0 300 3 memory (omega arith)
      (omega arith) (omega arith) memory-Ready found buffer-Free
