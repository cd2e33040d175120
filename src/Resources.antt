-- ===== src/Resources.antt =====
-- src/sched.c and include/sched.h: the table of resources of a process.
pub mod Added
pub mod Slots
pub mod Served
mod Tests
use bayos_kernel.Alloc.{Allocator, Mem, alloc, free}
use bayos_kernel.Common.{◌-◌}
use bayos_kernel.Alloc.{Allocator, Mem, alloc, free}
use bayos_kernel.Common.{◌%◌, ◌^◌}
use bayos_kernel.Alloc.{Allocator, Mem, alloc, free}
use bayos_kernel.Common.{
  ℕ, zero, suc, ◌+◌, ◌*◌, Bool, true, false, Option, none, some, List, [], ◌∷◌, ◌++◌, length,
  get_elem?, set, drop, if◌then◌else◌, ℤ, pos, negsuc,
}

-- `resource_type`
pub data ResourceType : Type 0 where
  empty pipe file : ResourceType

-- `resource`; `res` is a pointer.
pub record Resource : Type 0 where
  pub kind : ResourceType
  pub res : ℕ

-- `resources` of a process; `resources_cap` is its length.
abbrev pub Table : Type 0
Table = List Resource

abbrev pub is_empty : ResourceType → Bool
is_empty ResourceType.empty = true
is_empty ResourceType.pipe = false
is_empty ResourceType.file = false

-- The loop of `resource_add` that looks for a slot.
pub take_slot : Resource → Table → Option (ℕ × Table)
take_slot r [] = none
take_slot r (x ∷ t) =
    let rest = take_slot r t in
    if is_empty x.kind
    then some (0, r ∷ t)
    else elim rest [ none ↦ none | some (i, t') ↦ some (suc i, x ∷ t') ]

-- `resource_add`, on fuel (the outer `none`: it ran out); the inner `none` is -1. `table_alloc` gives what the
-- memory of a new table holds. No other thread of the process grows the table meanwhile.
unfoldable pub resource_add :
    (table_alloc : ℕ → Option Table) (fuel : ℕ) → Resource → Table → Option (Option ℕ × Table)
unfolding take_slot
resource_add table_alloc zero r t = none
resource_add table_alloc (suc fuel) r t = elim (take_slot r t) [
  | some (i, t') ↦ some (some i, t')
  | none ↦ elim (table_alloc (length t * 2)) [
    | none ↦ some (none, t)
    | some fresh ↦ resource_add table_alloc fuel r (t ++ drop (length t) fresh)
  ]
]

-- `resource_remove`; `NULL` is 0.
unfoldable pub resource_remove : ℤ → Table → ℕ × Table
resource_remove (negsuc n) t = (0, t)
resource_remove (pos i) t = elim (get_elem? t i) [
  | none ↦ (0, t)
  | some r ↦ (
    if is_empty r.kind then 0 else r.res,
    set t i (record { kind = ResourceType.empty; res = 0 }),
  )
]

-- `resource_get`; `none` is -1.
pub resource_get : ℤ → Table → Option Resource
resource_get (negsuc n) t = none
resource_get (pos i) t = get_elem? t i

-- `resource_table_alloc` and `resource_table_free`; `sizeof(resource)` is 16.
unfoldable pub resource_table_alloc : Allocator → (cap : ℕ) → Mem → Option (ℕ × Mem)
resource_table_alloc arena cap heap = alloc arena (cap * 16) heap

pub resource_table_free : Allocator → (t : ℕ) → Mem → Mem
resource_table_free arena t heap = free arena t heap

-- The calls that a resource passes on, with the value that each returns, on a state of their own; `none`
-- means that the call does not return.
pub record Streams (W : Type 0) : Type 0 where
  pub pipe_read : (res buf len : ℕ) → W → Option (ℕ × W)
  pub pipe_write : (res buf len : ℕ) → W → Option (ℕ × W)
  pub vfs_read : (res buf len : ℕ) → W → Option (ℕ × W)
  pub vfs_write : (res buf len : ℕ) → W → Option (ℕ × W)

-- The 32 bits of -1, and a value that is returned as an `int`.
abbrev pub minus_one : ℕ
minus_one = 2 ^ 32 - 1

abbrev pub as_int : {W : Type 0} → Option (ℕ × W) → Option (ℕ × W)
as_int none = none
as_int (some (n, w)) = some (n % 2 ^ 32, w)

module _ {W : Type 0} (calls : Streams W) where
  pub resource_read : (fd : ℤ) (buf len : ℕ) → Table → W → Option (ℕ × W)
  unfolding resource_get
  resource_read fd buf len t w = elim (resource_get fd t) [
    | none ↦ some (minus_one, w)
    | some r ↦ elim r.kind [
      | ResourceType.empty ↦ some (minus_one, w)
      | ResourceType.pipe ↦ as_int (calls.pipe_read r.res buf len w)
      | ResourceType.file ↦ as_int (calls.vfs_read r.res buf len w)
    ]
  ]

  pub resource_write : (fd : ℤ) (buf len : ℕ) → Table → W → Option (ℕ × W)
  unfolding resource_get
  resource_write fd buf len t w = elim (resource_get fd t) [
    | none ↦ some (minus_one, w)
    | some r ↦ elim r.kind [
      | ResourceType.empty ↦ some (minus_one, w)
      | ResourceType.pipe ↦ as_int (calls.pipe_write r.res buf len w)
      | ResourceType.file ↦ as_int (calls.vfs_write r.res buf len w)
    ]
  ]
