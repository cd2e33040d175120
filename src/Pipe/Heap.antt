-- ===== src/Pipe/Heap.antt =====
-- `pipe_create` and `pipe_close` of src/pipe.c on the kernel heap.
use bayos_kernel.Alloc.{Allocator, Mem, alloc, free}
use bayos_kernel.Alloc.Blocks.{Block, IsHeap, IsTidy}
use bayos_kernel.Alloc.Spec.{first_fit, free_blocks-first_fit}
use bayos_kernel.Alloc.FirstFit.{request, alloc_refines}
use bayos_kernel.Alloc.Free.{free_refines}
use bayos_kernel.Alloc.Client.{InUse-Owns, first_fit-InUse}
use bayos_kernel.Pipe.{pipe_size, semaphores_size, pipe_create, pipe_close}
use bayos_kernel.Common.{
  none, ◌⊎◌, inl, inr, false, true, ◌==◌, ==_iff, Bool-cases, ℕ, ◌+◌, ◌<◌, ◌≡◌, refl, some, List,
  arith, u64_mod,
}

-- `free` of a block that first fit gave, on any memory that holds the heap.
free-first_fit :
    {al : Allocator} {m : Mem} (n : ℕ) (bs : List Block)
    → IsTidy bs
    → 0 < (first_fit n al.addr bs).0
    → IsHeap al m (first_fit n al.addr bs).1
    → IsHeap al (free al (first_fit n al.addr bs).0 m) bs
free-first_fit {al} {m} n bs tidy found h =
    let owns =
      InUse-Owns (first_fit n al.addr bs).0 n al.addr (first_fit n al.addr bs).1
        (first_fit-InUse n al.addr bs found) in
    let freed = free_refines (first_fit n al.addr bs).0 h owns in
    rw (free_blocks-first_fit n al.addr bs tidy found) at freed

create-run :
    (al : Allocator) (len : ℕ) (m : Mem) {p b s : ℕ} {m1 m2 m3 : Mem}
    → alloc al pipe_size m ≡ some (p, m1)
    → alloc al len m1 ≡ some (b, m2)
    → alloc al semaphores_size m2 ≡ some (s, m3)
    → 0 < p
    → 0 < s
    → pipe_create al len m ≡ some ((p, b, s), m3)
unfolding pipe_create
create-run al len m {p} {b} {s} e f g lp ls =
    let np : (p == 0) ≡ false = ground (arith, lp) in
    let ns : (s == 0) ≡ false = ground (arith, ls) in rw (e, f, np, g, ns) refl

no_pipe :
    (al : Allocator) (len : ℕ) (m : Mem) {p b : ℕ} {m1 m2 : Mem}
    → alloc al pipe_size m ≡ some (p, m1)
    → alloc al len m1 ≡ some (b, m2)
    → p ≡ 0
    → pipe_create al len m ≡ none
unfolding pipe_create
no_pipe al len m {p} e f z = let null : (p == 0) ≡ true = ground (arith, z) in rw (e, f, null) refl

no_semaphores :
    (al : Allocator) (len : ℕ) (m : Mem) {p b s : ℕ} {m1 m2 m3 : Mem}
    → alloc al pipe_size m ≡ some (p, m1)
    → alloc al len m1 ≡ some (b, m2)
    → alloc al semaphores_size m2 ≡ some (s, m3)
    → 0 < p
    → s ≡ 0
    → pipe_create al len m ≡ none
unfolding pipe_create
no_semaphores al len m {p} {b} {s} e f g lp z =
    let np : (p == 0) ≡ false = ground (arith, lp) in
    let null : (s == 0) ≡ true = ground (arith, z) in rw (e, f, np, g, null) refl

-- The blocks that the three requests of `pipe_create` get by first fit, as addresses; 0 means that no free block
-- fits.
abbrev pub first_of : (len start : ℕ) → List Block → ℕ × List Block
first_of len start bs = first_fit (request len) start bs

abbrev pub pipe_at : (len start : ℕ) → List Block → ℕ
pipe_at len start bs = (first_of pipe_size start bs).0

abbrev pub buffer_at : (len start : ℕ) → List Block → ℕ
buffer_at len start bs = (first_of len start (first_of pipe_size start bs).1).0

abbrev pub semaphores_at : (len start : ℕ) → List Block → ℕ
semaphores_at len start bs =
    (first_of semaphores_size start (first_of len start (first_of pipe_size start bs).1).1).0

-- On a well-formed heap where first fit finds blocks for the pipe and its semaphores, `pipe_create` returns them and what
-- first fit finds for the buffer; if that is not `NULL`, then `pipe_close` gives the heap back the blocks that it had.
-- Where first fit finds no block for the pipe or for the semaphores, `pipe_create` writes through `NULL` instead.
pub pipe_close-create :
    {al : Allocator} {m : Mem} {bs : List Block} (len : ℕ)
    → len + 0x40 < u64_mod
    → IsHeap al m bs
    → ((m' : Mem) × (0 < pipe_at len al.addr bs)
        × (0 < semaphores_at len al.addr bs)
        × (pipe_create al len m
            ≡ some (
              (pipe_at len al.addr bs, buffer_at len al.addr bs, semaphores_at len al.addr bs),
              m',
            ))
        × (0 < buffer_at len al.addr bs
            → IsHeap al
                (pipe_close al
                  (pipe_at len al.addr bs, buffer_at len al.addr bs, semaphores_at len al.addr bs)
                  m')
                bs))
      ⊎ ((pipe_create al len m ≡ none)
          × ((pipe_at len al.addr bs ≡ 0) ⊎ (semaphores_at len al.addr bs ≡ 0)))
unfolding pipe_close
pipe_close-create {al} {m} {bs} len small h =
    let n1 = request pipe_size in
    let n2 = request len in
    let n3 = request semaphores_size in
    let (m1, run1, h1) = alloc_refines pipe_size (omega arith) h in
    let bs1 = (first_fit n1 al.addr bs).1 in
    let (m2, run2, h2) = alloc_refines len small h1 in
    let bs2 = (first_fit n2 al.addr bs1).1 in
    let (m3, run3, h3) = alloc_refines semaphores_size (omega arith) h2 in
    elim (Bool-cases (pipe_at len al.addr bs == 0)) [
      | inl z ↦ let null = (==_iff _ 0).0 z in inr (no_pipe al len m run1 run2 null, inl null)
      | inr f ↦
          let p : 0 < pipe_at len al.addr bs = ground (arith, f) in
          elim (Bool-cases (semaphores_at len al.addr bs == 0)) [
            | inl z ↦
                let null = (==_iff _ 0).0 z in
                inr (no_semaphores al len m run1 run2 run3 p null, inr null)
            | inr g ↦
                let s : 0 < semaphores_at len al.addr bs = ground (arith, g) in
                inl (
                  m3,
                  p,
                  s,
                  create-run al len m run1 run2 run3 p s,
                  λ b.
                      free-first_fit n1 bs h.tidy p
                        (free-first_fit n2 bs1 h1.tidy b (free-first_fit n3 bs2 h2.tidy s h3)),
                )
          ]
    ]
