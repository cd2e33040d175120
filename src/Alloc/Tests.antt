-- ===== src/Alloc/Tests.antt =====
-- A heap of 0x200 bytes at 0x1000: tests, and the theorems at it.
use bayos_kernel.Common.{ℕ, ◌<◌, ◌≡◌, refl, inl, some, List, [], ◌∷◌, arith}
use bayos_kernel.Alloc.{NodeStatus, Mem, Allocator, alloc, free, new_allocator}
use bayos_kernel.Alloc.Blocks.{Block, free_block, used_block, IsHeap}
use mathlib.Core.Option
use bayos_kernel.Alloc.Spec.{first_fit, free_blocks, merge_front}
use bayos_kernel.Alloc.FirstFit.{alloc_refines}
use bayos_kernel.Alloc.Free.{free_refines}
use bayos_kernel.Alloc.Client.{Allocated, alloc-Allocated, new_allocator-IsHeap}

abbrev blank : Mem
blank a = record { size = 0; status = NodeStatus.used; prev = 0; next = 0 }

abbrev arena : Allocator
arena = record { first = 0x1000; addr = 0x1000; size = 0x200 }

abbrev memory : Mem
memory a = (new_allocator 0x1000 0x200 blank).1 a

abbrev fresh_blocks : List Block
fresh_blocks = free_block 0x1e0 ∷ []

fresh : IsHeap arena memory fresh_blocks
unfolding new_allocator
fresh = new_allocator-IsHeap 0x1000 0x200 blank (omega arith) (omega arith) (omega arith)

-- the state after a request of 0x30 bytes, and of 1 byte
abbrev two_used : List Block
two_used = used_block 0x30 ∷ used_block 0x20 ∷ free_block 0x150 ∷ []

first_fit_twice :
    (first_fit 0x20 0x1000 (first_fit 0x30 0x1000 fresh_blocks).1) ≡ (0x1070, two_used)
unfolding first_fit
first_fit_twice = refl

free_joins_both :
    free_blocks 0x1070 0x1000 (free_block 0x30 ∷ used_block 0x20 ∷ free_block 0x150 ∷ [])
    ≡ fresh_blocks
unfolding free_blocks merge_front
free_joins_both = refl

alloc_runs : Option.map (λ out. out.0) (alloc arena 0x30 memory) ≡ some 0x1020
unfolding alloc new_allocator
alloc_runs = refl

alloc_refines_example :
    (m' : Mem) × (alloc arena 0x30 memory ≡ some ((first_fit 0x30 0x1000 fresh_blocks).0, m'))
    × IsHeap arena m' (first_fit 0x30 0x1000 fresh_blocks).1
alloc_refines_example = alloc_refines 0x30 (omega arith) fresh

alloc-Allocated_example :
    (ptr : ℕ) × (m' : Mem) × (bs' : List Block) × (alloc arena 1 memory ≡ some (ptr, m'))
    × IsHeap arena m' bs'
    × (0 < ptr → Allocated arena fresh_blocks bs' 0x20 ptr)
alloc-Allocated_example = alloc-Allocated 1 (omega arith) fresh

-- the heap after the first request
used_first :
    IsHeap arena
      (alloc_refines 0x30 (omega arith) fresh).0
      (used_block 0x30 ∷ free_block 0x190 ∷ [])
unfolding first_fit
used_first = (alloc_refines 0x30 (omega arith) fresh).2

free_refines_example :
    IsHeap arena
      (free arena 0x1020 (alloc_refines 0x30 (omega arith) fresh).0)
      (free_blocks 0x1020 0x1000 (used_block 0x30 ∷ free_block 0x190 ∷ []))
free_refines_example = free_refines 0x1020 used_first (inl (refl, refl))
