-- ===== src/Sched/Chains.antt =====
-- A list of addresses that a field of the processes links.
use bayos_kernel.Common.{arith, ℕ, ◌<◌, ◌≡◌, sym, ◌≢◌, ◌∙◌, List, [], ◌∷◌, ◌++◌}

-- `next` links the addresses from `p` on, the last one to `NULL`.
unfoldable pub Linked : (next : ℕ → ℕ) → ℕ → List ℕ → Type 0
Linked next p [] = p ≡ 0
Linked next p (q ∷ qs) = (p ≡ q) × (0 < q) × Linked next (next q) qs

unfoldable pub Without : ℕ → List ℕ → Type 0
Without a [] = Unit
Without a (q ∷ qs) = (a ≢ q) × Without a qs

-- no address occurs twice
unfoldable pub IsDistinct : List ℕ → Type 0
IsDistinct [] = Unit
IsDistinct (q ∷ qs) = Without q qs × IsDistinct qs

-- A link that is written outside of the list leaves it linked.
pub Linked-outside :
    (next next' : ℕ → ℕ) (p : ℕ) (qs : List ℕ) (b : ℕ)
    → Without b qs
    → ((a : ℕ) → a ≢ b → next' a ≡ next a)
    → Linked next p qs
    → Linked next' p qs
unfolding Linked Without
Linked-outside next next' p [] b w same c = c
Linked-outside next next' p (q ∷ qs) b (ne, w) same (e, pos, c) =
    let rest = Linked-outside next next' (next q) qs b w same c in
    (e, pos, rw (sym (same q (λ h. ne (sym h)))) at rest)

pub Linked-same :
    (next next' : ℕ → ℕ) (p : ℕ) (qs : List ℕ)
    → ((a : ℕ) → next' a ≡ next a)
    → Linked next p qs
    → Linked next' p qs
unfolding Linked
Linked-same next next' p [] same c = c
Linked-same next next' p (q ∷ qs) same (e, pos, c) =
    let rest = Linked-same next next' (next q) qs same c in (e, pos, rw (sym (same q)) at rest)

-- The part of a linked list behind one of its addresses.
pub Linked-behind :
    (next : ℕ → ℕ) (p : ℕ) (before : List ℕ) (q : ℕ) (after : List ℕ)
    → Linked next p (before ++ q ∷ after)
    → Linked next (next q) after
unfolding Linked
Linked-behind next p [] q after c = c.2
Linked-behind next p (b ∷ before) q after c = Linked-behind next (next b) before q after c.2

pub Linked-head :
    (next : ℕ → ℕ) (p : ℕ) (before : List ℕ) (q : ℕ) (after : List ℕ)
    → Linked next p (before ++ q ∷ after)
    → 0 < p
unfolding Linked
Linked-head next p [] q after c = omega (arith, c.0, c.1)
Linked-head next p (b ∷ before) q after c = omega (arith, c.0, c.1)

pub Linked-at : (next : ℕ → ℕ) {p q : ℕ} (qs : List ℕ) → q ≡ p → Linked next p qs → Linked next q qs
unfolding Linked
Linked-at next [] e c = e ∙ c
Linked-at next (r ∷ rs) e c = (e ∙ c.0, c.1, c.2)

pub Linked-list :
    (next : ℕ → ℕ) (p : ℕ) {qs rs : List ℕ} → qs ≡ rs → Linked next p qs → Linked next p rs
Linked-list next p e c = rw e at c
