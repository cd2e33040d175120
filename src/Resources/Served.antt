-- ===== src/Resources/Served.antt =====
-- `resource_read` and `resource_write` of src/sched.c on a descriptor that `resource_add` has returned.
use bayos_kernel.Resources.{
  ResourceType, Resource, Table, Streams, minus_one, as_int, resource_add, resource_remove,
  resource_get, resource_read, resource_write,
}
use bayos_kernel.Resources.Slots.{IsFull, cleared}
use bayos_kernel.Resources.Added.{Opened, resource_add-Opened}
use bayos_kernel.Common.{
  ℕ, zero, suc, ◌*◌, ◌<◌, ◌≡◌, ◌≢◌, ◌⊎◌, inl, inr, refl, ◌∙◌, Option, none, some, [], ◌∷◌, length,
  get_elem?, set, arith, pos,
}

get-set :
    (t : Table) (i : ℕ) (r x : Resource) → get_elem? t i ≡ some r → get_elem? (set t i x) i ≡ some x
get-set [] i r x e = absurd (ground (arith, e))
get-set (y ∷ t) zero r x e = refl
get-set (y ∷ t) (suc i) r x e = get-set t i r x e

get-length : (t : Table) (i : ℕ) (r : Resource) → get_elem? t i ≡ some r → i < length t
get-length [] i r e = absurd (ground (arith, e))
get-length (y ∷ t) zero r e = omega arith
get-length (y ∷ t) (suc i) r e = let rest = get-length t i r e in omega (arith, rest)

abbrev nothing : Resource
nothing = record { kind = ResourceType.empty; res = 0 }

removed-get :
    (t : Table) (i : ℕ) (r : Resource)
    → get_elem? t i ≡ some r
    → get_elem? (resource_remove (pos i) t).1 i ≡ some nothing
unfolding resource_remove
removed-get t i r e = rw (e, resource_remove) (get-set t i r nothing e)

module _ {W : Type 0} (calls : Streams W) where
  -- The call that a read of a resource is passed on to, and that of a write.
  unfoldable pub read_of : Resource → (buf len : ℕ) → W → Option (ℕ × W)
  read_of r buf len w = elim r.kind [
    | ResourceType.empty ↦ some (minus_one, w)
    | ResourceType.pipe ↦ as_int (calls.pipe_read r.res buf len w)
    | ResourceType.file ↦ as_int (calls.vfs_read r.res buf len w)
  ]

  unfoldable pub write_of : Resource → (buf len : ℕ) → W → Option (ℕ × W)
  write_of r buf len w = elim r.kind [
    | ResourceType.empty ↦ some (minus_one, w)
    | ResourceType.pipe ↦ as_int (calls.pipe_write r.res buf len w)
    | ResourceType.file ↦ as_int (calls.vfs_write r.res buf len w)
  ]

  -- The descriptor `i` of the table reads and writes the resource.
  pub record Serves (r : Resource) (t : Table) (i : ℕ) : Type 0 where
    pub reads :
        (buf len : ℕ) (w : W) → resource_read calls (pos i) buf len t w ≡ read_of r buf len w
    pub writes :
        (buf len : ℕ) (w : W) → resource_write calls (pos i) buf len t w ≡ write_of r buf len w

  -- What a new descriptor does, what the others do, and what it does when it has been removed.
  pub record Served (r : Resource) (t t' : Table) (i : ℕ) : Type 0 where
    pub open_serves : Serves r t' i
    pub others :
        (j : ℕ) (x : Resource) → j ≢ i → get_elem? t j ≡ some x → Serves x t j × Serves x t' j
    pub closed_fails :
        (buf len : ℕ) (w : W)
        → (resource_read calls (pos i) buf len (resource_remove (pos i) t').1 w
            ≡ some (minus_one, w))
          × (resource_write calls (pos i) buf len (resource_remove (pos i) t').1 w
              ≡ some (minus_one, w))

  pub get-Serves : (r : Resource) (t : Table) (i : ℕ) → get_elem? t i ≡ some r → Serves r t i
  unfolding resource_read resource_write resource_get read_of write_of
  get-Serves r t i e = record {
    reads = λ buf len w. rw (e, resource_read) refl;
    writes = λ buf len w. rw (e, resource_write) refl;
  }

  Opened-Served : (r : Resource) (t t' : Table) (i : ℕ) → Opened r t t' i → Served r t t' i
  unfolding resource_get read_of write_of
  Opened-Served r t t' i o = record {
    open_serves = get-Serves r t' i o.reads;
    others =
        λ j x ne e. (get-Serves x t j e, get-Serves x t' j (o.kept j ne (get-length t j x e) ∙ e));
    closed_fails = λ buf len w.
        let s = get-Serves nothing (resource_remove (pos i) t').1 i (removed-get t' i r o.reads) in
        (s.reads buf len w, s.writes buf len w);
  }

  -- If the memory of a new table is cleared, then `resource_add` returns for any table that is not empty, in two
  -- rounds: -1, with the table as it was, if every slot is in use and no memory is left; or else a descriptor
  -- that was not in use. Reads and writes of it go to the pipe or the file, those of the other descriptors go where
  -- they went, and once `resource_remove` has taken it, they return -1.
  pub resource_add-Served :
      (table_alloc : ℕ → Option Table) (fuel : ℕ) (r : Resource) (t : Table)
      → ((n : ℕ) (fresh : Table) → table_alloc n ≡ some fresh → fresh ≡ cleared n)
      → 0 < length t
      → (o : Option ℕ) × (t' : Table) × (resource_add table_alloc (suc (suc fuel)) r t
          ≡ some (o, t'))
        × (((o ≡ none) × (t' ≡ t) × IsFull t × (table_alloc (length t * 2) ≡ none))
            ⊎ ((i : ℕ) × (o ≡ some i) × Opened r t t' i × Served r t t' i))
  resource_add-Served table_alloc fuel r t clears h =
      let (o, t', run, why) = resource_add-Opened table_alloc fuel r t clears h in
      (
        o,
        t',
        run,
        elim why [
          | inl full ↦ inl full
          | inr (i, e, opened) ↦ inr (i, e, opened, Opened-Served r t t' i opened)
        ],
      )
