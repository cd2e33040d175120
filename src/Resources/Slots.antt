-- ===== src/Resources/Slots.antt =====
-- The slots of the table of resources of src/sched.c.
use bayos_kernel.Resources.{ResourceType, Resource, Table, is_empty, take_slot}
use bayos_kernel.Common.{
  ℕ, zero, suc, ◌≡◌, refl, ap, ◌∙◌, ◌≢◌, ◌⊎◌, inl, inr, true, false, none, some, [], ◌∷◌, ◌++◌,
  length, get_elem?, arith, Bool-cases, replicate,
}

-- no slot is left
unfoldable pub IsFull : Table → Type 0
IsFull [] = Unit
IsFull (x ∷ t) = (is_empty x.kind ≡ false) × IsFull t

-- `i` is the first slot of `t`, and `t'` is `t` with `r` in it.
unfoldable pub Placed : Resource → Table → ℕ → Table → Type 0
Placed r [] i t' = ⊥
Placed r (x ∷ t) zero t' = (is_empty x.kind ≡ true) × (t' ≡ r ∷ t)
Placed r (x ∷ t) (suc i) t' =
    (is_empty x.kind ≡ false) × (rest : Table) × (t' ≡ x ∷ rest) × Placed r t i rest

slot-here :
    (r x : Resource) (t : Table) → is_empty x.kind ≡ true → take_slot r (x ∷ t) ≡ some (0, r ∷ t)
unfolding take_slot
slot-here r x t e = rw e refl

slot-none :
    (r x : Resource) (t : Table)
    → is_empty x.kind ≡ false
    → take_slot r t ≡ none
    → take_slot r (x ∷ t) ≡ none
unfolding take_slot
slot-none r x t e n = rw (e, n) refl

slot-behind :
    {i : ℕ} {t' : Table} (r x : Resource) (t : Table)
    → is_empty x.kind ≡ false
    → take_slot r t ≡ some (i, t')
    → take_slot r (x ∷ t) ≡ some (suc i, x ∷ t')
unfolding take_slot
slot-behind r x t e s = rw (e, s) refl

pub take_slot-Placed :
    (r : Resource) (t : Table)
    → ((take_slot r t ≡ none) × IsFull t)
      ⊎ ((i : ℕ) × (t' : Table) × (take_slot r t ≡ some (i, t')) × Placed r t i t')
unfolding IsFull Placed
take_slot-Placed r [] = inl (unfold take_slot in refl, tt)
take_slot-Placed r (x ∷ t) = elim (Bool-cases (is_empty x.kind)) [
  | inl e ↦ inr (0, r ∷ t, slot-here r x t e, (e, refl))
  | inr f ↦ elim (take_slot-Placed r t) [
    | inl (n, full) ↦ inl (slot-none r x t f n, (f, full))
    | inr (i, t', s, p) ↦ inr (suc i, x ∷ t', slot-behind r x t f s, (f, t', refl, p))
  ]
]

-- A table of `n` slots as it is cleared.
unfoldable pub cleared : ℕ → Table
cleared n = replicate n (record { kind = ResourceType.empty; res = 0 })

-- a full table with a slot behind it
pub placed_behind :
    (r x : Resource) (t rest : Table)
    → IsFull t
    → is_empty x.kind ≡ true
    → take_slot r (t ++ x ∷ rest) ≡ some (length t, t ++ r ∷ rest)
unfolding IsFull
placed_behind r x [] rest full e = slot-here r x rest e
placed_behind r x (y ∷ t) rest full e =
    slot-behind r y (t ++ x ∷ rest) full.0 (placed_behind r x t rest full.1 e)
    ∙ ap (λ i. some (i, y ∷ t ++ r ∷ rest)) (omega arith)

-- What `resource_remove` gives back for a slot that `resource_add` took.
pub Placed-get :
    (r : Resource) (t : Table) (i : ℕ) (t' : Table) → Placed r t i t' → get_elem? t' i ≡ some r
unfolding Placed
Placed-get r [] i t' p = absurd p
Placed-get r (x ∷ t) zero t' p = rw (p.1) refl
Placed-get r (x ∷ t) (suc i) t' (f, rest, e, p) = rw e (Placed-get r t i rest p)

-- the other slots
pub Placed-other :
    (r : Resource) (t : Table) (i : ℕ) (t' : Table)
    → Placed r t i t'
    → (j : ℕ) → j ≢ i
    → get_elem? t' j ≡ get_elem? t j
unfolding Placed
Placed-other r [] i t' p j ne = absurd p
Placed-other r (x ∷ t) zero t' p zero ne = absurd (ne refl)
Placed-other r (x ∷ t) zero t' p (suc j) ne = rw (p.1) refl
Placed-other r (x ∷ t) (suc i) t' (f, rest, e, p) zero ne = rw e refl
Placed-other r (x ∷ t) (suc i) t' (f, rest, e, p) (suc j) ne =
    rw e (Placed-other r t i rest p j (λ h. ne (omega (arith, h))))
