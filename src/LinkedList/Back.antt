-- ===== src/LinkedList/Back.antt =====
-- `ll_add_back` of src/ll.c: it does not write the field `next` of the node that was the last one.
use bayos_kernel.LinkedList.{
  Store, record_size, set_node, set_list, linked_back, ll_size, walk, ll_get, ll_add_back,
}
use bayos_kernel.LinkedList.Forward.{AllInUse, Forward, fresh-AllInUse, map-outside, ll_get-Linked}
use bayos_kernel.LinkedList.Pushes.{set_node-at, set_node-other, set_list-at}
use bayos_kernel.Alloc.{Allocator, Mem, alloc}
use bayos_kernel.Alloc.Blocks.{Block, IsHeap}
use bayos_kernel.Alloc.Client.{Allocated}
use bayos_kernel.Alloc.Cases.{Given, alloc-Given}
use bayos_kernel.Sched.Chains.{Linked, Linked-outside, Linked-at}
use bayos_kernel.Common.{
  ℕ, suc, ◌+◌, ◌<◌, ◌≡◌, refl, sym, ap, ◌∙◌, ◌≢◌, ◌⊎◌, inl, inr, some, none, List, [], ◌∷◌, map,
  length, length-map, get_or, arith, ℤ, pos, negsuc, u64_mod,
}

-- The store after `ll_add_back` has written the node at `ptr`.
appended : (ll ptr content : ℕ) → Mem → Store → Store
appended ll ptr content heap s =
    let l = s.lists ll in
    set_list
      (set_node (record s { heap = heap }) ptr
        (record { content = content; next = 0; prev = l.last }))
      ll (linked_back l ptr)

appended-node :
    (ll ptr c : ℕ) (heap : Mem) (s : Store)
    → (appended ll ptr c heap s).nodes ptr
      ≡ record { content = c; next = 0; prev = (s.lists ll).last }
unfolding appended set_list
appended-node ll ptr c heap s =
    set_node-at (record s { heap = heap }) ptr
      (record { content = c; next = 0; prev = (s.lists ll).last })

appended-other :
    (ll ptr c : ℕ) (heap : Mem) (s : Store) (a : ℕ)
    → a ≢ ptr
    → (appended ll ptr c heap s).nodes a ≡ s.nodes a
unfolding appended set_list
appended-other ll ptr c heap s a ne =
    set_node-other (record s { heap = heap }) ptr
      (record { content = c; next = 0; prev = (s.lists ll).last }) a ne

appended-list :
    (ll ptr c : ℕ) (heap : Mem) (s : Store)
    → (appended ll ptr c heap s).lists ll ≡ linked_back (s.lists ll) ptr
unfolding appended
appended-list ll ptr c heap s =
    set_list-at
      (set_node (record s { heap = heap }) ptr
        (record { content = c; next = 0; prev = (s.lists ll).last }))
      ll (linked_back (s.lists ll) ptr)

appended-heap : (ll ptr c : ℕ) (heap : Mem) (s : Store) → (appended ll ptr c heap s).heap ≡ heap
unfolding appended set_list set_node
appended-heap ll ptr c heap s = refl

add_back-some :
    {al ll ptr : ℕ} {heap : Mem} (arena : Allocator) (c : ℕ) (s : Store)
    → 0 < al
    → 0 < ll
    → 0 < ptr
    → alloc arena record_size s.heap ≡ some (ptr, heap)
    → ll_add_back arena al ll c s ≡ some (pos 0, appended ll ptr c heap s)
unfolding ll_add_back appended
add_back-some arena c s a l p e = rw (e, ll_add_back) (ground (arith, a, l, p))

add_back-none :
    {al ll : ℕ} {heap : Mem} (arena : Allocator) (c : ℕ) (s : Store)
    → 0 < al
    → 0 < ll
    → alloc arena record_size s.heap ≡ some (0, heap)
    → ll_add_back arena al ll c s ≡ some (negsuc 0, record s { heap = heap })
unfolding ll_add_back
add_back-none arena c s a l e = rw (e, ll_add_back) (ground (arith, a, l))

first-null :
    (next content : ℕ → ℕ) (p : ℕ) (ns : List ℕ) → Linked next p ns → map content ns ≡ [] → p ≡ 0
unfolding Linked
first-null next content p [] c e = c
first-null next content p (n ∷ ns) c e = absurd (omega (arith, ap length e))

first-node :
    {c : ℕ} {cs : List ℕ} (next content : ℕ → ℕ) (p : ℕ) (ns : List ℕ)
    → Linked next p ns
    → map content ns ≡ c ∷ cs
    → 0 < p
unfolding Linked
first-node next content p [] c e = absurd (omega (arith, ap length e))
first-node next content p (n ∷ ns) c e = omega (arith, c.0, c.1)

-- A walk over all the nodes ends behind the last one, at `NULL`.
walk-end :
    (p : ℕ) (s : Store) (ns : List ℕ)
    → Linked (λ a. (s.nodes a).next) p ns
    → walk (length ns) p s ≡ some 0
unfolding walk Linked
walk-end p s [] c = ap some c
walk-end p s (n ∷ ns) (e, nn, c) = rw e (ground (arith, walk-end (s.nodes n).next s ns c, nn))

get-null :
    (ll i : ℕ) (s : Store)
    → 0 < ll
    → i < (s.lists ll).size
    → walk i (s.lists ll).first s ≡ some 0
    → ll_get ll i s ≡ none
unfolding ll_get ll_size
get-null ll i s lp h e = rw (e, ll_get) (ground (arith, h, lp))

-- The first node of a list.
appended-Forward :
    {arena : Allocator} {bs' : List Block} (ll ptr c : ℕ) (heap : Mem) (s : Store)
    → 0 < ptr
    → IsHeap arena heap bs'
    → (f : Forward arena ll [] s) → Allocated arena f.blocks bs' 0x20 ptr
    → Forward arena ll (c ∷ []) (appended ll ptr c heap s)
unfolding AllInUse Linked linked_back
appended-Forward {bs'} ll ptr c heap s p h f got =
    let list = appended-list ll ptr c heap s in
    let node = appended-node ll ptr c heap s in
    record {
      blocks = bs';
      heap = rw (appended-heap ll ptr c heap s) h;
      addrs = ptr ∷ [];
      owned = (got.owned, tt);
      linked = (
        ap (λ l. l.first) list
            ∙ ground (
              arith,
              first-null (λ a. (s.nodes a).next) (λ a. (s.nodes a).content) (s.lists ll).first
                  f.addrs f.linked f.held,
            ),
        p,
        ap (λ n. n.next) node,
      );
      held = rw node refl;
      size = omega (arith, ap (λ l. l.size) list, f.size);
    }

-- A list that has grown by a node behind its last one: the contents from before are there, but the
-- index of the new one leads to a field of `NULL`.
pub record Lost (ll : ℕ) (contents : List ℕ) (s : Store) : Type 0 where
  pub size : ll_size ll s ≡ length contents + 1
  pub kept : (i : ℕ) → i < length contents → ll_get ll i s ≡ some (get_or contents i 0)
  pub lost : ll_get ll (length contents) s ≡ none

appended-Lost :
    {arena : Allocator} {c0 : ℕ} {cs : List ℕ} {bs' : List Block} (ll ptr c : ℕ) (heap : Mem)
    (s : Store)
    → 0 < ll
    → length cs + 2 < u64_mod
    → (f : Forward arena ll (c0 ∷ cs) s) → Allocated arena f.blocks bs' 0x20 ptr
    → Lost ll (c0 ∷ cs) (appended ll ptr c heap s)
unfolding linked_back ll_size
appended-Lost {c0} {cs} ll ptr c heap s lp small f got =
    let s' = appended ll ptr c heap s in
    let (w, owned) = fresh-AllInUse ptr f.addrs got f.owned in
    let list = appended-list ll ptr c heap s in
    let other = appended-other ll ptr c heap s in
    let held : map (λ a. (s'.nodes a).content) f.addrs ≡ c0 ∷ cs =
      map-outside (λ a. (s.nodes a).content) (λ a. (s'.nodes a).content) ptr f.addrs w
        (λ a ne. ap (λ n. n.content) (other a ne))
      ∙ f.held in
    let first : (s'.lists ll).first ≡ (s.lists ll).first =
      ap (λ l. l.first) list
      ∙ ground (
        arith,
        first-node (λ a. (s.nodes a).next) (λ a. (s.nodes a).content) (s.lists ll).first f.addrs
            f.linked f.held,
      ) in
    let linked =
      Linked-at (λ a. (s'.nodes a).next) f.addrs first
        (Linked-outside (λ a. (s.nodes a).next) (λ a. (s'.nodes a).next) (s.lists ll).first f.addrs
          ptr w (λ a ne. ap (λ n. n.next) (other a ne)) f.linked) in
    let size : (s'.lists ll).size ≡ suc (suc (length cs)) =
      omega (arith, ap (λ l. l.size) list, f.size) in
    let long : length f.addrs ≡ suc (length cs) =
      omega (arith, ap length f.held, length-map f.addrs (λ a. (s.nodes a).content)) in
    record {
      size = ground (arith, size, lp);
      kept = λ i h. ll_get-Linked ll i s' f.addrs lp h (omega arith) linked held;
      lost = get-null ll (suc (length cs)) s' lp (omega arith) (
          ap (λ n. walk n (s'.lists ll).first s') (sym long)
          ∙ walk-end (s'.lists ll).first s' f.addrs linked);
    }

-- `ll_add_back` of a list that is linked forward returns. It returns -1 with the list as it was; or
-- 0, and then the content is the list's only one if it was empty, and else there is no way to it from the front.
pub ll_add_back-Added :
    {arena : Allocator} {cs : List ℕ} (al ll c : ℕ) (s : Store)
    → 0 < al
    → 0 < ll
    → length cs + 1 < u64_mod
    → Forward arena ll cs s
    → (r : ℤ) × (s' : Store) × (ll_add_back arena al ll c s ≡ some (r, s'))
      × (((r ≡ negsuc 0) × Forward arena ll cs s')
          ⊎ (((r ≡ pos 0) × (cs ≡ []) × Forward arena ll (c ∷ []) s')
              ⊎ ((r ≡ pos 0) × (cs ≢ []) × Lost ll cs s')))
unfolding Given
ll_add_back-Added {arena} {cs} al ll c s a l small f =
    let (ptr, heap, run, cases) = alloc-Given record_size (omega arith) f.heap in
    elim cases [
      | inl (e, h) ↦ (
        negsuc 0,
        record s { heap = heap },
        add_back-none arena c s a l (rw e at run),
        inl (
          refl,
          record {
            blocks = f.blocks;
            heap = h;
            addrs = f.addrs;
            owned = f.owned;
            linked = f.linked;
            held = f.held;
            size = f.size;
          },
        ),
      )
      | inr (p, bs', h, got) ↦ (
        pos 0,
        appended ll ptr c heap s,
        add_back-some arena c s a l p run,
        inr (by_contents cs small f ptr p bs' heap h got),
      )
    ]
  where
    by_contents :
        (cs : List ℕ)
        → length cs + 1 < u64_mod
        → (f : Forward arena ll cs s) → (ptr : ℕ) → 0 < ptr
        → (bs' : List Block) (heap : Mem) → IsHeap arena heap bs'
        → Allocated arena f.blocks bs' 0x20 ptr
        → ((pos 0 ≡ pos 0) × (cs ≡ []) × Forward arena ll (c ∷ []) (appended ll ptr c heap s))
          ⊎ ((pos 0 ≡ pos 0) × (cs ≢ []) × Lost ll cs (appended ll ptr c heap s))
    by_contents [] small f ptr p bs' heap h got =
        inl (refl, refl, appended-Forward ll ptr c heap s p h f got)
    by_contents (c0 ∷ cs) small f ptr p bs' heap h got = inr (
      refl,
      (λ e. omega (arith, ap length e)),
      appended-Lost ll ptr c heap s l (omega arith) f got,
    )
