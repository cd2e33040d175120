-- ===== src/LinkedList/Forward.antt =====
-- Lists of src/ll.c that are linked forward: `ll_get`, and `ll_add_front`.
use bayos_kernel.Common.{◌≤◌}
use bayos_kernel.LinkedList.{
  Store, record_size, set_node, set_list, ll_size, walk, ll_get, linked_front, ll_add_front,
}
use bayos_kernel.Alloc.{Allocator, Mem, alloc}
use bayos_kernel.Alloc.Blocks.{Block, IsHeap}
use bayos_kernel.Alloc.Client.{InUse, Allocated}
use bayos_kernel.Sched.Chains.{Linked, Without}
use bayos_kernel.Common.{
  ℕ, zero, suc, ◌<◌, ◌≡◌, refl, sym, ap, ◌∙◌, ◌≢◌, some, List, [], ◌∷◌, map, length, length-map,
  get_or, arith, pos, negsuc,
}

-- The nodes lie in blocks of the heap that are in use.
unfoldable pub AllInUse : ℕ → List Block → List ℕ → Type 0
AllInUse p bs [] = Unit
AllInUse p bs (a ∷ ns) = InUse a 0x20 p bs × AllInUse p bs ns

-- The fields `next` link the nodes from `first` on, and their contents are `contents`.
pub record Forward (arena : Allocator) (ll : ℕ) (contents : List ℕ) (s : Store) : Type 0 where
  pub blocks : List Block
  pub heap : IsHeap arena s.heap blocks
  pub addrs : List ℕ
  pub owned : AllInUse arena.addr blocks addrs
  pub linked : Linked (λ a. (s.nodes a).next) (s.lists ll).first addrs
  pub held : map (λ a. (s.nodes a).content) addrs ≡ contents
  pub size : (s.lists ll).size ≡ length contents

-- A block that has just been allocated is none of those in use.
pub fresh-AllInUse :
    {al : Allocator} {bs bs' : List Block} (ptr : ℕ) (ns : List ℕ)
    → Allocated al bs bs' 0x20 ptr
    → AllInUse al.addr bs ns
    → Without ptr ns × AllInUse al.addr bs' ns
unfolding AllInUse Without
fresh-AllInUse ptr [] h u = (tt, tt)
fresh-AllInUse ptr (a ∷ ns) h (u, us) =
    let (w, us') = fresh-AllInUse ptr ns h us in
    ((λ e. omega (arith, e, h.apart a 0x20 u), w), (h.kept a 0x20 u, us'))

pub map-outside :
    (f g : ℕ → ℕ) (b : ℕ) (ns : List ℕ)
    → Without b ns
    → ((a : ℕ) → a ≢ b → g a ≡ f a)
    → map g ns ≡ map f ns
unfolding Without
map-outside f g b [] w same = refl
map-outside f g b (a ∷ ns) (ne, w) same =
    rw (same a (λ e. ne (sym e)), map-outside f g b ns w same) refl

-- `walk` over linked nodes ends at the node that it counts to.
walk-Linked :
    (i p : ℕ) (s : Store) (ns : List ℕ)
    → i < length ns
    → Linked (λ a. (s.nodes a).next) p ns
    → (a : ℕ) × (walk i p s ≡ some a)
      × (0 < a)
      × ((s.nodes a).content ≡ get_or (map (λ b. (s.nodes b).content) ns) i 0)
unfolding walk Linked
walk-Linked i p s [] h c = absurd (omega arith)
walk-Linked zero p s (a ∷ ns) h (e, nn, c) = (p, refl, omega (arith, e, nn), rw e refl)
walk-Linked (suc i) p s (a ∷ ns) h (e, nn, c) =
    let (b, run, bn, got) = walk-Linked i (s.nodes a).next s ns (omega arith) c in
    (b, rw e (ground (arith, run, nn)), bn, got)

get-some :
    (ll i a : ℕ) (s : Store)
    → 0 < ll
    → i < (s.lists ll).size
    → walk i (s.lists ll).first s ≡ some a
    → 0 < a
    → ll_get ll i s ≡ some (s.nodes a).content
unfolding ll_get ll_size
get-some ll i a s lp h e ap = rw (e, ll_get) (ground (arith, h, lp, ap))

pub ll_get-Linked :
    {cs : List ℕ} (ll i : ℕ) (s : Store) (ns : List ℕ)
    → 0 < ll
    → i < length cs
    → length cs ≤ (s.lists ll).size
    → Linked (λ a. (s.nodes a).next) (s.lists ll).first ns
    → map (λ a. (s.nodes a).content) ns ≡ cs
    → ll_get ll i s ≡ some (get_or cs i 0)
ll_get-Linked ll i s ns lp h k linked held =
    let (a, run, an, got) =
      walk-Linked i (s.lists ll).first s ns
        (omega (arith, ap length held, length-map ns (λ a. (s.nodes a).content))) linked in
    get-some ll i a s lp (omega arith) run an ∙ ap some (got ∙ ap (λ t. get_or t i 0) held)

-- `ll_get` of an index of the list gives the content there.
pub ll_get-Forward :
    {arena : Allocator} {cs : List ℕ} (ll i : ℕ) (s : Store)
    → 0 < ll
    → i < length cs
    → Forward arena ll cs s
    → ll_get ll i s ≡ some (get_or cs i 0)
ll_get-Forward ll i s lp h f =
    ll_get-Linked ll i s f.addrs lp h (omega (arith, f.size)) f.linked f.held

pub add_front-some :
    {al ll ptr : ℕ} {heap : Mem} (arena : Allocator) (c : ℕ) (s : Store)
    → 0 < al
    → 0 < ll
    → 0 < ptr
    → alloc arena record_size s.heap ≡ some (ptr, heap)
    → let s1 = record s { heap = heap } in
      let l = s.lists ll in
      let s2 = set_node s1 ptr (record { content = c; next = l.first; prev = 0 }) in
      ll_add_front arena al ll c s ≡ some (pos 0, set_list s2 ll (linked_front l ptr))
unfolding ll_add_front
add_front-some arena c s a l p e = rw (e, ll_add_front) (ground (arith, a, l, p))

pub add_front-none :
    {al ll : ℕ} {heap : Mem} (arena : Allocator) (c : ℕ) (s : Store)
    → 0 < al
    → 0 < ll
    → alloc arena record_size s.heap ≡ some (0, heap)
    → ll_add_front arena al ll c s ≡ some (negsuc 0, record s { heap = heap })
unfolding ll_add_front
add_front-none arena c s a l e = rw (e, ll_add_front) (ground (arith, a, l))
