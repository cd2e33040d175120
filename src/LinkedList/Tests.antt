-- ===== src/LinkedList/Tests.antt =====
-- A list of two nodes: the theorems at it.
use bayos_kernel.LinkedList.{Store, ll_add_back}
use bayos_kernel.LinkedList.Forward.{Forward}
use bayos_kernel.LinkedList.Back.{Lost, ll_add_back-Added}
use bayos_kernel.LinkedList.Sample.{sample_arena, sample_store, sample_Forward}
use bayos_kernel.Common.{◌≡◌, ◌≢◌, ◌⊎◌, some, List, [], ◌∷◌, ℕ, ℤ, pos, negsuc, arith}

abbrev two : List ℕ
two = 0x2000 ∷ 0x2100 ∷ []

ll_add_back-Added_example :
    (r : ℤ) × (s' : Store) × (ll_add_back sample_arena 1 0x3000 7 sample_store ≡ some (r, s'))
    × (((r ≡ negsuc 0) × Forward sample_arena 0x3000 two s')
        ⊎ (((r ≡ pos 0) × (two ≡ []) × Forward sample_arena 0x3000 (7 ∷ []) s')
            ⊎ ((r ≡ pos 0) × (two ≢ []) × Lost 0x3000 two s')))
ll_add_back-Added_example =
    ll_add_back-Added 1 0x3000 7 sample_store (omega arith) (omega arith) (omega arith)
      sample_Forward
