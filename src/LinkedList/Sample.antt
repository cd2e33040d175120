-- ===== src/LinkedList/Sample.antt =====
-- A list of two nodes on a heap, for the tests.
use bayos_kernel.LinkedList.{Node, Store}
use bayos_kernel.LinkedList.Forward.{AllInUse, Forward}
use bayos_kernel.Alloc.{NodeStatus, Allocator, Mem}
use bayos_kernel.Alloc.Blocks.{used_block, free_block}
use bayos_kernel.Sched.Chains.{Linked}
use bayos_kernel.Common.{ℕ, refl, inl, inr, [], ◌∷◌, arith, ◌==◌, if◌then◌else◌}

abbrev pub sample_arena : Allocator
sample_arena = record { first = 0x1000; addr = 0x1000; size = 0x180 }

abbrev sample_heap : Mem
sample_heap a =
    if a == 0x1000
    then record { size = 0x20; status = NodeStatus.used; prev = 0; next = 0x1040 }
    else if a == 0x1040
    then record { size = 0x20; status = NodeStatus.used; prev = 0x1000; next = 0x1080 }
    else record { size = 0xe0; status = NodeStatus.free; prev = 0x1040; next = 0 }

abbrev sample_nodes : ℕ → Node
sample_nodes a =
    if a == 0x1020
    then record { content = 0x2000; next = 0x1060; prev = 0 }
    else record { content = 0x2100; next = 0; prev = 0 }

abbrev pub sample_store : Store
sample_store = record {
  nodes = sample_nodes;
  lists = λ a. record { first = 0x1020; last = 0x1060; size = 2 };
  heap = sample_heap;
}

pub sample_Forward : Forward sample_arena 0x3000 (0x2000 ∷ 0x2100 ∷ []) sample_store
unfolding AllInUse Linked
sample_Forward = record {
  blocks = used_block 0x20 ∷ used_block 0x20 ∷ free_block 0xe0 ∷ [];
  heap = record {
    first = refl;
    room = omega arith;
    nonnull = omega arith;
    below = omega arith;
    tiles = refl;
    chain = (refl, (refl, (refl, tt)));
    tidy = (omega arith, refl, (omega arith, refl, (omega arith, refl, tt)));
  };
  addrs = 0x1020 ∷ 0x1060 ∷ [];
  owned = (inl (refl, refl), (inr (inl (refl, refl)), tt));
  linked = (refl, omega arith, (refl, omega arith, refl));
  held = refl;
  size = refl;
}
