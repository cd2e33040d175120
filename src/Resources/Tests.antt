-- ===== src/Resources/Tests.antt =====
-- A full table of one slot: tests, and the theorem at it.
use bayos_kernel.Resources.{ResourceType, Resource, Table, resource_add, resource_remove}
use bayos_kernel.Resources.Slots.{IsFull, cleared}
use bayos_kernel.Resources.Added.{Opened}
use bayos_kernel.Resources.{Streams}
use bayos_kernel.Resources.Served.{Served, resource_add-Served}
use bayos_kernel.Common.{ℕ, ◌*◌, ◌≡◌, ◌⊎◌, refl, Option, none, some, [], ◌∷◌, length, arith, pos}

abbrev a_pipe : Resource
a_pipe = record { kind = ResourceType.pipe; res = 0x1000 }

abbrev a_file : Resource
a_file = record { kind = ResourceType.file; res = 0x2000 }

abbrev one : Table
one = a_pipe ∷ []

abbrev table_alloc : ℕ → Option Table
table_alloc n = some (cleared n)

clears : (n : ℕ) (fresh : Table) → table_alloc n ≡ some fresh → fresh ≡ cleared n
clears n fresh e = ground (arith, e)

removes : resource_remove (pos 0) one ≡ (0x1000, record { kind = ResourceType.empty; res = 0 } ∷ [])
unfolding resource_remove
removes = refl

-- Every call returns the length that it is asked for.
abbrev streams : Streams Unit
streams = record {
  pipe_read = λ res buf len w. some (len, w);
  pipe_write = λ res buf len w. some (len, w);
  vfs_read = λ res buf len w. some (len, w);
  vfs_write = λ res buf len w. some (len, w);
}

resource_add-Served_example :
    (o : Option ℕ) × (t' : Table) × (resource_add table_alloc 2 a_file one ≡ some (o, t'))
    × (((o ≡ none) × (t' ≡ one) × IsFull one × (table_alloc (length one * 2) ≡ none))
        ⊎ ((i : ℕ) × (o ≡ some i) × Opened a_file one t' i × Served streams a_file one t' i))
resource_add-Served_example =
    resource_add-Served streams table_alloc 0 a_file one clears (omega arith)
