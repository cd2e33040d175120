-- ===== src/LinkedList.antt =====
-- src/ll.c and include/ll.h: linked lists of pointers, with their nodes on the kernel heap.
use bayos_kernel.Common.{true}
use bayos_kernel.Common.{false}
use bayos_kernel.Common.{Bool, add64, sub64}
pub mod Forward
pub mod Pushes
pub mod Back
pub mod Sample
mod Tests
use bayos_kernel.Alloc.{Allocator, Mem, alloc, free}
use bayos_kernel.Common.{
  ℕ, zero, suc, ◌+◌, ◌-◌, ◌||◌, Option, none, some, leb, ◌==◌, if◌then◌else◌, ℤ, pos, negsuc, ◌>>=◌,
}

-- `ll_node_t` and `ll_t`
pub record Node : Type 0 where
  pub content : ℕ
  pub next : ℕ
  pub prev : ℕ

pub record LinkedList : Type 0 where
  pub first : ℕ
  pub last : ℕ
  pub size : ℕ

-- The records at each address, and the heap that they are allocated on.
pub record Store : Type 0 where
  pub nodes : ℕ → Node
  pub lists : ℕ → LinkedList
  pub heap : Mem

-- `sizeof(ll_node_t)` and `sizeof(ll_t)`
abbrev pub record_size : ℕ
record_size = 24

pub set_node : Store → ℕ → Node → Store
set_node s p n = record s { nodes = λ a. if a == p then n else s.nodes a }

pub set_list : Store → ℕ → LinkedList → Store
set_list s p l = record s { lists = λ a. if a == p then l else s.lists a }

-- `ll_create`; it clears `sizeof(ll)` bytes, the first field. `al` is the pointer to the allocator,
-- which is tested for `NULL`; `arena` is what it points to. The outer option is that of `alloc`.
pub ll_create : (arena : Allocator) (al : ℕ) → Store → Option (ℕ × Store)
unfolding set_list
ll_create arena al s = if al == 0 then some (0, s) else (do
  (ll, heap) ← alloc arena record_size s.heap
  let s1 = record s { heap = heap } in
      some (if ll == 0 then (0, s1) else (ll, set_list s1 ll (record (s.lists ll) { first = 0 }))))

unfoldable pub ll_size : (ll : ℕ) → Store → ℕ
ll_size ll s = if ll == 0 then 0 else (s.lists ll).size

-- `node = node->next`, `rounds` times: `none` means that a field of `NULL` is read.
pub walk : (rounds node : ℕ) → Store → Option ℕ
walk zero node s = some node
walk (suc rounds) node s =
    let rest = walk rounds (s.nodes node).next s in if node == 0 then none else rest

pub ll_get : (ll index : ℕ) → Store → Option ℕ
unfolding ll_size walk
ll_get ll index s = if ll == 0 || leb (ll_size ll s) index then some 0 else (do
  node ← walk index (s.lists ll).first s
  if node == 0 then none else some (s.nodes node).content)

-- The record of a new node, and what `ll_add_back` and `ll_add_front` write to the list.
pub linked_back : LinkedList → (node : ℕ) → LinkedList
linked_back l node = record {
  first = if l.first == 0 then node else l.first;
  last = node;
  size = add64 l.size 1;
}

pub linked_front : LinkedList → (node : ℕ) → LinkedList
linked_front l node = record {
  first = node;
  last = if l.last == 0 then node else l.last;
  size = add64 l.size 1;
}

pub ll_add_back : (arena : Allocator) (al ll content : ℕ) → Store → Option (ℤ × Store)
unfolding set_node set_list linked_back
ll_add_back arena al ll content s = if al == 0 || ll == 0 then some (negsuc 0, s) else (do
  (node, heap) ← alloc arena record_size s.heap
  let s1 = record s { heap = heap } in
      let l = s.lists ll in
      let s2 = set_node s1 node (record { content = content; next = 0; prev = l.last }) in
      some (if node == 0 then (negsuc 0, s1) else (pos 0, set_list s2 ll (linked_back l node))))

pub ll_add_front : (arena : Allocator) (al ll content : ℕ) → Store → Option (ℤ × Store)
unfolding set_node set_list linked_front
ll_add_front arena al ll content s = if al == 0 || ll == 0 then some (negsuc 0, s) else (do
  (node, heap) ← alloc arena record_size s.heap
  let s1 = record s { heap = heap } in
      let l = s.lists ll in
      let s2 = set_node s1 node (record { content = content; next = l.first; prev = 0 }) in
      some (if node == 0 then (negsuc 0, s1) else (pos 0, set_list s2 ll (linked_front l node))))

-- The writes that take a node out of its list, and the call of `free`.
pub unlink : Allocator → (ll node : ℕ) → Store → Store
unfolding set_node set_list
unlink arena ll node s =
    let n = s.nodes node in
    let s1 =
      if n.prev == 0
      then set_list s ll (record (s.lists ll) { first = n.next })
      else set_node s n.prev (record (s.nodes n.prev) { next = n.next }) in
    let m = s1.nodes node in
    let s2 =
      if m.next == 0
      then set_list s1 ll (record (s1.lists ll) { last = m.prev })
      else set_node s1 m.next (record (s1.nodes m.next) { prev = m.prev }) in
    let s3 = set_list s2 ll (record (s2.lists ll) { size = sub64 (s2.lists ll).size 1 }) in
    record s3 { heap = free arena node s3.heap }

pub ll_remove : (arena : Allocator) (al ll index : ℕ) → Store → Option Store
unfolding ll_size walk unlink
ll_remove arena al ll index s =
    if al == 0 || ll == 0 || leb (ll_size ll s) index then some s else (do
      node ← walk index (s.lists ll).first s
      if node == 0 then none else some (unlink arena ll node s))

-- The loop of `ll_remove_pointer`, which stays at its node; it reads `content` of `NULL` if the list
-- has a size but no node.
pub find_pointer : (rounds node content : ℕ) → Store → Option Bool
find_pointer zero node content s = some false
find_pointer (suc rounds) node content s =
    let rest = find_pointer rounds node content s in
    if node == 0 then none else if (s.nodes node).content == content then some true else rest

pub ll_remove_pointer : (arena : Allocator) (al ll content : ℕ) → Store → Option Store
unfolding ll_size find_pointer unlink
ll_remove_pointer arena al ll content s = if al == 0 || ll == 0 then some s else (do
  found ← find_pointer (ll_size ll s) (s.lists ll).first content s
  some (if found then unlink arena ll (s.lists ll).first s else s))

-- The loop of `ll_destroy`; a node is read after it has been freed, since `free` writes headers only.
pub destroy_loop : (rounds node : ℕ) → Allocator → Store → Option Store
destroy_loop zero node arena s = some s
destroy_loop (suc rounds) node arena s =
    let s1 = record s { heap = free arena node s.heap } in
    let rest = destroy_loop rounds (s1.nodes node).next arena s1 in if node == 0 then none else rest

pub ll_destroy : (arena : Allocator) (al ll : ℕ) → Store → Option Store
unfolding ll_size destroy_loop
ll_destroy arena al ll s = if al == 0 || ll == 0 then some s else (do
  s1 ← destroy_loop (ll_size ll s) (s.lists ll).first arena s
  some (record s1 { heap = free arena ll s1.heap }))
