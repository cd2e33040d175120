-- ===== src/Resources/Added.antt =====
-- `resource_add`, `resource_get` and `resource_remove` of src/sched.c together.
use bayos_kernel.Common.{◌-◌}
use bayos_kernel.Resources.{
  ResourceType, Resource, Table, is_empty, take_slot, resource_add, resource_remove, resource_get,
}
use bayos_kernel.Resources.Slots.{
  IsFull, Placed, take_slot-Placed, cleared, placed_behind, Placed-get, Placed-other,
}
use bayos_kernel.Common.{
  ℕ, zero, suc, ◌+◌, ◌*◌, ◌<◌, ◌≡◌, refl, ap, ◌∙◌, ◌≢◌, ◌⊎◌, inl, inr, true, false, Option, none,
  some, [], ◌∷◌, ◌++◌, length, get_elem?, drop, arith, pos, Option-cases, replicate,
}

-- `i` is the descriptor of `r` in `t'`: it reads as `r`, gives `r` back when it is removed, and was no descriptor
-- in use before; those that were read as they did.
pub record Opened (r : Resource) (t t' : Table) (i : ℕ) : Type 0 where
  pub reads : resource_get (pos i) t' ≡ some r
  pub gives : is_empty r.kind ≡ false → (resource_remove (pos i) t').0 ≡ r.res
  pub unused : (x : Resource) → get_elem? t i ≡ some x → is_empty x.kind ≡ true
  pub kept : (j : ℕ) → j ≢ i → j < length t → resource_get (pos j) t' ≡ resource_get (pos j) t

remove-gives :
    (r : Resource) (t : Table) (i : ℕ)
    → get_elem? t i ≡ some r
    → is_empty r.kind ≡ false
    → (resource_remove (pos i) t).0 ≡ r.res
unfolding resource_remove
remove-gives r t i e f = rw (e, f, resource_remove) refl

Placed-unused :
    (r : Resource) (t : Table) (i : ℕ) (t' : Table)
    → Placed r t i t'
    → (x : Resource) → get_elem? t i ≡ some x
    → is_empty x.kind ≡ true
unfolding Placed
Placed-unused r [] i t' p x e = absurd p
Placed-unused r (y ∷ t) zero t' p x e = ground (arith, p.0, e)
Placed-unused r (y ∷ t) (suc i) t' (f, rest, q, p) x e = Placed-unused r t i rest p x e

Placed-Opened : (r : Resource) (t : Table) (i : ℕ) (t' : Table) → Placed r t i t' → Opened r t t' i
unfolding resource_get
Placed-Opened r t i t' p = record {
  reads = Placed-get r t i t' p;
  gives = remove-gives r t' i (Placed-get r t i t' p);
  unused = Placed-unused r t i t' p;
  kept = λ j ne h. Placed-other r t i t' p j ne;
}

append-get :
    (t : Table) (r : Resource) (rest : Table) → get_elem? (t ++ r ∷ rest) (length t) ≡ some r
append-get [] r rest = refl
append-get (x ∷ t) r rest = append-get t r rest

append-kept : (t ts : Table) (j : ℕ) → j < length t → get_elem? (t ++ ts) j ≡ get_elem? t j
append-kept [] ts j h = absurd (omega arith)
append-kept (x ∷ t) ts zero h = refl
append-kept (x ∷ t) ts (suc j) h = append-kept t ts j (omega arith)

behind-none : (t : Table) (x : Resource) → get_elem? t (length t) ≡ some x → ⊥
behind-none [] x e = ground (arith, e)
behind-none (y ∷ t) x e = behind-none t x e

grown-Opened : (r : Resource) (t rest : Table) → Opened r t (t ++ r ∷ rest) (length t)
unfolding resource_get
grown-Opened r t rest = record {
  reads = append-get t r rest;
  gives = remove-gives r (t ++ r ∷ rest) (length t) (append-get t r rest);
  unused = λ x e. absurd (behind-none t x e);
  kept = λ j ne h. append-kept t (r ∷ rest) j h;
}

drop-replicate : (a b c : ℕ) (x : Resource) → c ≡ a + b → drop a (replicate c x) ≡ replicate b x
drop-replicate zero b c x e = ap (λ n. replicate n x) (omega (arith, e))
drop-replicate (suc a) b zero x e = absurd (omega (arith, e))
drop-replicate (suc a) b (suc c) x e = drop-replicate a b c x (omega (arith, e))

add-found :
    {i : ℕ} {t' : Table} (table_alloc : ℕ → Option Table) (fuel : ℕ) (r : Resource) (t : Table)
    → take_slot r t ≡ some (i, t')
    → resource_add table_alloc (suc fuel) r t ≡ some (some i, t')
unfolding resource_add
add-found {i} {t'} table_alloc fuel r t e = rw (e, resource_add) refl

add-fails :
    (table_alloc : ℕ → Option Table) (fuel : ℕ) (r : Resource) (t : Table)
    → take_slot r t ≡ none
    → table_alloc (length t * 2) ≡ none
    → resource_add table_alloc (suc fuel) r t ≡ some (none, t)
unfolding resource_add
add-fails table_alloc fuel r t e f = rw (e, f, resource_add) refl

add-grows :
    {fresh : Table} (table_alloc : ℕ → Option Table) (fuel : ℕ) (r : Resource) (t : Table)
    → take_slot r t ≡ none
    → table_alloc (length t * 2) ≡ some fresh
    → resource_add table_alloc (suc fuel) r t
      ≡ resource_add table_alloc fuel r (t ++ drop (length t) fresh)
unfolding resource_add
add-grows {fresh} table_alloc fuel r t e f = rw (e, f, resource_add) refl

-- If the memory of a new table is cleared, then `resource_add` returns for any table that is not empty, in two
-- rounds. It returns a descriptor of the resource that was not in use, and leaves the others as they were; or -1, with
-- the table as it was, if every slot is in use and no memory is left.
pub resource_add-Opened :
    (table_alloc : ℕ → Option Table) (fuel : ℕ) (r : Resource) (t : Table)
    → ((n : ℕ) (fresh : Table) → table_alloc n ≡ some fresh → fresh ≡ cleared n)
    → 0 < length t
    → (o : Option ℕ) × (t' : Table) × (resource_add table_alloc (suc (suc fuel)) r t ≡ some (o, t'))
      × (((o ≡ none) × (t' ≡ t) × IsFull t × (table_alloc (length t * 2) ≡ none))
          ⊎ ((i : ℕ) × (o ≡ some i) × Opened r t t' i))
resource_add-Opened table_alloc fuel r t clears h = elim (take_slot-Placed r t) [
  | inr (i, t', s, p) ↦
      (some i, t', add-found table_alloc (suc fuel) r t s, inr (i, refl, Placed-Opened r t i t' p))
  | inl (n, full) ↦ elim (Option-cases (table_alloc (length t * 2))) [
    | inl out ↦ (none, t, add-fails table_alloc (suc fuel) r t n out, inl (refl, refl, full, out))
    | inr (fresh, got) ↦
        let more : drop (length t) fresh ≡ slot ∷ cleared (length t - 1) =
          ap (drop (length t)) (clears (length t * 2) fresh got)
          ∙ unfold cleared in
            drop-replicate (length t) (suc (length t - 1)) (length t * 2) slot (omega arith) in
        (
          some (length t),
          t ++ r ∷ cleared (length t - 1),
          add-grows table_alloc (suc fuel) r t n got
              ∙ ap (λ ts. resource_add table_alloc (suc fuel) r (t ++ ts)) more
              ∙ add-found table_alloc fuel r (t ++ slot ∷ cleared (length t - 1))
                  (placed_behind r slot t (cleared (length t - 1)) full refl),
          inr (length t, refl, grown-Opened r t (cleared (length t - 1))),
        )
  ]
]
  where
    slot : Resource
    slot = record { kind = ResourceType.empty; res = 0 }
