-- ===== src/Alloc/Node.antt =====
-- `heap_node` of include/alloc.h, and the memory that holds the headers.
use bayos_kernel.Common.{ℕ, not, ◌&&◌, ◌==◌, if◌then◌else◌}

-- `heap_node_status`
pub data NodeStatus : Type 0 where
  used free : NodeStatus

-- `heap_node`; a pointer is an address, and `NULL` is 0.
pub record HeapNode : Type 0 where
  pub size : ℕ
  pub status : NodeStatus
  pub prev : ℕ
  pub next : ℕ

-- The header that begins at each address. Headers at different addresses are cells of their own:
-- the invariant of the heap keeps them at least a header apart, so that no two overlap.
abbrev pub Mem : Type 0
Mem = ℕ → HeapNode

unfoldable pub store : Mem → ℕ → HeapNode → Mem
store m p n a = if a == p then n else m a

-- writes to fields of the header at `p`
unfoldable pub modify : Mem → ℕ → (HeapNode → HeapNode) → Mem
modify m p f a = if a == p then f (m a) else m a

-- `if (p != NULL) p->prev = q;`
unfoldable pub set_prev : Mem → ℕ → ℕ → Mem
set_prev m p q a = if not (p == 0) && a == p then record (m a) { prev = q } else m a
