-- ===== src/LinkedList/Pushes.antt =====
-- `ll_add_front` of src/ll.c on lists that are linked forward.
use bayos_kernel.LinkedList.{
  Node, LinkedList, Store, record_size, set_node, set_list, linked_front, ll_add_front,
}
use bayos_kernel.LinkedList.Forward.{
  AllInUse, Forward, fresh-AllInUse, map-outside, add_front-some, add_front-none,
}
use bayos_kernel.Alloc.{Allocator, Mem}
use bayos_kernel.Alloc.Blocks.{Block, IsHeap}
use bayos_kernel.Alloc.Client.{Allocated}
use bayos_kernel.Alloc.Cases.{Given, alloc-Given}
use bayos_kernel.Sched.Chains.{Linked, Linked-outside, Linked-at}
use bayos_kernel.Common.{
  ℕ, ◌+◌, ◌<◌, ◌≡◌, refl, ap, ◌≢◌, ◌⊎◌, inl, inr, some, List, ◌∷◌, length, arith, ℤ, pos, negsuc,
  u64_mod,
}

pub set_node-at : (s : Store) (p : ℕ) (n : Node) → (set_node s p n).nodes p ≡ n
unfolding set_node
set_node-at s p n = ground arith

pub set_node-other :
    (s : Store) (p : ℕ) (n : Node) (a : ℕ) → a ≢ p → (set_node s p n).nodes a ≡ s.nodes a
unfolding set_node
set_node-other s p n a ne = ground (arith, ne)

pub set_list-at : (s : Store) (p : ℕ) (l : LinkedList) → (set_list s p l).lists p ≡ l
unfolding set_list
set_list-at s p l = ground arith

-- The store after `ll_add_front` has written the node at `ptr`.
pub pushed : (ll ptr content : ℕ) → Mem → Store → Store
pushed ll ptr content heap s =
    let l = s.lists ll in
    set_list
      (set_node (record s { heap = heap }) ptr
        (record { content = content; next = l.first; prev = 0 }))
      ll (linked_front l ptr)

pushed-node :
    (ll ptr c : ℕ) (heap : Mem) (s : Store)
    → (pushed ll ptr c heap s).nodes ptr
      ≡ record { content = c; next = (s.lists ll).first; prev = 0 }
unfolding pushed set_list
pushed-node ll ptr c heap s =
    set_node-at (record s { heap = heap }) ptr
      (record { content = c; next = (s.lists ll).first; prev = 0 })

pushed-other :
    (ll ptr c : ℕ) (heap : Mem) (s : Store) (a : ℕ)
    → a ≢ ptr
    → (pushed ll ptr c heap s).nodes a ≡ s.nodes a
unfolding pushed set_list
pushed-other ll ptr c heap s a ne =
    set_node-other (record s { heap = heap }) ptr
      (record { content = c; next = (s.lists ll).first; prev = 0 }) a ne

pushed-list :
    (ll ptr c : ℕ) (heap : Mem) (s : Store)
    → (pushed ll ptr c heap s).lists ll ≡ linked_front (s.lists ll) ptr
unfolding pushed
pushed-list ll ptr c heap s =
    set_list-at
      (set_node (record s { heap = heap }) ptr
        (record { content = c; next = (s.lists ll).first; prev = 0 }))
      ll (linked_front (s.lists ll) ptr)

pushed-heap : (ll ptr c : ℕ) (heap : Mem) (s : Store) → (pushed ll ptr c heap s).heap ≡ heap
unfolding pushed set_list set_node
pushed-heap ll ptr c heap s = refl

pushed-Forward :
    {arena : Allocator} {cs : List ℕ} {bs' : List Block} (ll ptr c : ℕ) (heap : Mem) (s : Store)
    → length cs + 1 < u64_mod
    → 0 < ptr
    → IsHeap arena heap bs'
    → (f : Forward arena ll cs s) → Allocated arena f.blocks bs' 0x20 ptr
    → Forward arena ll (c ∷ cs) (pushed ll ptr c heap s)
unfolding AllInUse Linked linked_front
pushed-Forward {bs'} ll ptr c heap s small p h f got =
    let s' = pushed ll ptr c heap s in
    let (w, owned) = fresh-AllInUse ptr f.addrs got f.owned in
    let list = pushed-list ll ptr c heap s in
    let node = pushed-node ll ptr c heap s in
    record {
      blocks = bs';
      heap = rw (pushed-heap ll ptr c heap s) h;
      addrs = ptr ∷ f.addrs;
      owned = (got.owned, owned);
      linked = (
        ap (λ l. l.first) list,
        p,
        Linked-at (λ a. (s'.nodes a).next) f.addrs (ap (λ n. n.next) node)
            (Linked-outside (λ a. (s.nodes a).next) (λ a. (s'.nodes a).next) (s.lists ll).first
              f.addrs ptr w (λ a ne. ap (λ n. n.next) (pushed-other ll ptr c heap s a ne))
              f.linked),
      );
      held =
          rw
            (
              node,
              map-outside (λ a. (s.nodes a).content) (λ a. (s'.nodes a).content) ptr f.addrs w
                  (λ a ne. ap (λ n. n.content) (pushed-other ll ptr c heap s a ne)),
              f.held,
            )
            refl;
      size = omega (arith, ap (λ l. l.size) list, f.size);
    }

-- `ll_add_front` on a list that is linked forward returns. It puts the content in front, or
-- returns -1 and leaves the list as it was.
pub ll_add_front-Pushed :
    {arena : Allocator} {cs : List ℕ} (al ll c : ℕ) (s : Store)
    → 0 < al
    → 0 < ll
    → length cs + 1 < u64_mod
    → Forward arena ll cs s
    → (r : ℤ) × (s' : Store) × (ll_add_front arena al ll c s ≡ some (r, s'))
      × (((r ≡ pos 0) × Forward arena ll (c ∷ cs) s') ⊎ ((r ≡ negsuc 0) × Forward arena ll cs s'))
unfolding Given
ll_add_front-Pushed {arena} al ll c s a l small f =
    let (ptr, heap, run, cases) = alloc-Given record_size (omega arith) f.heap in
    elim cases [
      | inl (e, h) ↦ (
        negsuc 0,
        record s { heap = heap },
        add_front-none arena c s a l (rw e at run),
        inr (
          refl,
          record {
            blocks = f.blocks;
            heap = h;
            addrs = f.addrs;
            owned = f.owned;
            linked = f.linked;
            held = f.held;
            size = f.size;
          },
        ),
      )
      | inr (p, bs', h, got) ↦ (
        pos 0,
        pushed ll ptr c heap s,
        unfold pushed in add_front-some arena c s a l p run,
        inl (refl, pushed-Forward ll ptr c heap s small p h f got),
      )
    ]
