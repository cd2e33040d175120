-- ===== src/Alloc.antt =====
-- src/alloc.c and include/alloc.h: the kernel heap, a first-fit allocator over headers that lie in
-- the memory that they describe.
mod Node
pub mod Blocks
pub mod Client
pub mod Cases
pub mod FirstFit
pub mod Free
pub mod Join
pub mod JoinPrev
pub mod Release
pub mod Spec
pub mod Split
mod Tests
pub use Node.{NodeStatus, HeapNode, Mem}
unfoldable pub use Node.{store, modify, set_prev}
use bayos_kernel.Common.{
  ℕ, zero, suc, ◌+◌, ◌-◌, Bool, true, false, not, ◌&&◌, ◌||◌, Option, none, some, ltb, leb, ◌==◌,
  if◌then◌else◌, add64, sub64,
}

-- `sizeof(heap_node)`: a `size_t`, an `enum` padded to 8 bytes and two pointers.
abbrev pub node_size : ℕ
node_size = 0x20

pub record Allocator : Type 0 where
  pub first : ℕ
  pub addr : ℕ
  pub size : ℕ

abbrev pub is_free : NodeStatus → Bool
is_free NodeStatus.free = true
is_free NodeStatus.used = false

-- `new_allocator`: one free node over the whole arena.
pub new_allocator : ℕ → ℕ → Mem → Allocator × Mem
unfolding store modify set_prev
new_allocator addr size m = (
  record { first = addr; addr = addr; size = size },
  store m addr
      (record { size = sub64 size node_size; status = NodeStatus.free; prev = 0; next = 0 }),
)

-- The body of the second `if` of `alloc`, its writes in the order of the source.
pub split : ℕ → ℕ → Mem → Mem
unfolding store modify set_prev
split size cur m =
    let new = add64 (add64 cur size) node_size in
    let fresh : HeapNode = record {
      size = sub64 (sub64 (m cur).size size) node_size;
      status = NodeStatus.free;
      prev = cur;
      next = (m cur).next;
    } in
    let m1 = store m new fresh in
    let m2 = set_prev m1 (m1 cur).next new in
    modify m2 cur (λ c. record c { next = new; status = NodeStatus.used; size = size })

-- The `while` of `alloc`, on fuel: `none` means that the fuel ran out. A result of 0 is `NULL`.
pub alloc_loop : ℕ → ℕ → ℕ → Mem → Option (ℕ × Mem)
unfolding split store
alloc_loop zero size cur m = none
alloc_loop (suc k) size cur m =
    let rest = alloc_loop k size (m cur).next m in
    if cur == 0
    then some (0, m)
    else if (m cur).size == size && is_free (m cur).status
    then some (add64 cur node_size, modify m cur (λ c. record c { status = NodeStatus.used }))
    else if leb (add64 (add64 size node_size) 0x20) (m cur).size && is_free (m cur).status
    then some (add64 cur node_size, split size cur m)
    else rest

-- A heap of `size` bytes holds fewer than `size` nodes, so this much fuel is enough.
unfoldable pub alloc : Allocator → ℕ → Mem → Option (ℕ × Mem)
unfolding alloc_loop
alloc al size m = alloc_loop (suc al.size) (if ltb size 0x20 then 0x20 else size) al.first m

-- `p != NULL && p->status == FREE`
abbrev pub joins : Mem → ℕ → Bool
joins m p = not (p == 0) && is_free (m p).status

-- The `if` of `free` that joins the node to a free predecessor, with the node to go on with.
pub join_prev : ℕ → Mem → ℕ × Mem
unfolding modify set_prev
join_prev node m =
    let prev = (m node).prev in
    let next = (m node).next in
    let size = add64 (add64 (m prev).size (m node).size) node_size in
    let m1 = modify m prev (λ p. record p { size = size; next = next }) in
    if joins m prev then (prev, set_prev m1 next prev) else (node, m)

-- The last `if` of `free`: `next` was read before the node was joined to its predecessor.
pub join_next : ℕ → ℕ → Mem → Mem
unfolding modify set_prev
join_next next node m =
    let size = add64 (add64 (m next).size (m node).size) node_size in
    let after = (m next).next in
    let m1 = modify m node (λ n. record n { size = size; next = after }) in
    if joins m next then set_prev m1 (m1 node).next node else m

-- `free`. A pointer that is `NULL` or outside of the arena, and a node that is free, are ignored.
pub free : Allocator → ℕ → Mem → Mem
unfolding join_prev join_next modify
free al ptr m =
    let node = sub64 ptr node_size in
    let m1 = modify m node (λ n. record n { status = NodeStatus.free }) in
    let (node', m2) = join_prev node m1 in
    let freed = join_next (m1 node).next node' m2 in
    if ptr == 0 || ltb ptr al.addr || leb (add64 al.addr al.size) ptr || is_free (m node).status
    then m
    else freed
