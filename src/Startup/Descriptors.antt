-- ===== src/Startup/Descriptors.antt =====
-- The descriptors of the first user process, from `enter_ring_3_init` of src/main.c to its first calls.
use bayos_kernel.Startup.{user_stack, set_pid, user_table, enter_ring_3_init, resources_initial_cap}
use bayos_kernel.Alloc.{Allocator, Mem}
use bayos_kernel.Elf.{map_elf}
use bayos_kernel.Elf.Image.{e_entry, programs_of}
use bayos_kernel.Paging.{Tables, allocate_region}
use bayos_kernel.Resources.{
  Resource, ResourceType, Table, as_int, resource_add, resource_table_alloc,
}
use bayos_kernel.Resources.Slots.{cleared}
use bayos_kernel.Resources.Served.{get-Serves, read_of, write_of}
use bayos_kernel.Strings.{Bytes}
use bayos_kernel.Syscalls.{Kernel, set_user, get_current_process, get_new_pid, from_int}
use bayos_kernel.Syscalls.Execs.{Files}
use bayos_kernel.Syscalls.Handler.{Machine, int_of, read_syscall, write_syscall}
use bayos_kernel.Common.{
  ℕ, suc, ◌≡◌, ◌≢◌, refl, true, false, Option, some, ◌∷◌, arith, ◌==◌, if◌then◌else◌, ◌>>=◌,
}

abbrev a_pipe : ℕ → Resource
a_pipe res = record { kind = ResourceType.pipe; res = res }

-- The table that `user_table` makes of a cleared one.
unfoldable pub table_of : (keyboard_pipe print_pipe : ℕ) → Table
table_of keyboard_pipe print_pipe = a_pipe keyboard_pipe ∷ a_pipe print_pipe ∷ cleared 126

user_table-cleared :
    (table_alloc : ℕ → Option Table) (fuel keyboard_pipe print_pipe : ℕ)
    → user_table table_alloc (suc fuel) keyboard_pipe print_pipe (cleared 128)
      ≡ some (table_of keyboard_pipe print_pipe)
unfolding user_table table_of cleared resource_add
user_table-cleared table_alloc fuel keyboard_pipe print_pipe = refl

-- What a call of `read_syscall` or `write_syscall` makes of the result of the pipe.
pub passed : {W : Type 0} → Kernel W → Option (ℕ × W) → Option (ℕ × Kernel W)
passed k r = do (n, io) ← as_int r; some (from_int n, record k { io = io })

module _ {W : Type 0} (e : Machine W) (k : Kernel W) (keyboard_pipe print_pipe : ℕ) where
  pub read-first :
      (buf len : ℕ)
      → k.tables (k.users (get_current_process k)).resources ≡ table_of keyboard_pipe print_pipe
      → read_syscall e 0 buf len k ≡ passed k (e.streams.pipe_read keyboard_pipe buf len k.io)
  unfolding read_syscall int_of passed table_of read_of
  read-first buf len t =
      let s =
        get-Serves e.streams (a_pipe keyboard_pipe) (table_of keyboard_pipe print_pipe) 0 refl in
      rw (t, s.reads buf len k.io) refl

  pub write-second :
      (buf len : ℕ)
      → k.tables (k.users (get_current_process k)).resources ≡ table_of keyboard_pipe print_pipe
      → write_syscall e 1 buf len k ≡ passed k (e.streams.pipe_write print_pipe buf len k.io)
  unfolding write_syscall int_of passed table_of write_of
  write-second buf len t =
      let s = get-Serves e.streams (a_pipe print_pipe) (table_of keyboard_pipe print_pipe) 1 refl in
      rw (t, s.writes buf len k.io) refl

module _ {W : Type 0} (calls : Files W) (table_alloc : ℕ → Option Table) (fuel : ℕ)
    (arena : Allocator) (cr3 init_elf keyboard_pipe print_pipe : ℕ) (k : Kernel W) where
  -- The state in which the program is entered.
  entered_state : (elf_end resources : ℕ) → Tables → Mem → Table → Bytes → Kernel W
  unfolding set_user get_new_pid set_pid
  entered_state elf_end resources s heap t m =
      let p = get_current_process k in
      let (pid, k1) = get_new_pid k in
      set_user
        (record k1 {
          paging = s;
          heap = heap;
          sched = set_pid k1.sched p pid;
          tables = λ a. if a == resources then t else k1.tables a;
          io = calls.set_bytes m k1.io;
        })
        p
        (record (k1.users p) {
          elf_end = elf_end;
          resources = resources;
          resources_cap = resources_initial_cap;
        })

  enter-run :
      (elf_end resources : ℕ) (s1 s2 : Tables) (heap : Mem) (m2 : Bytes)
      → allocate_region cr3 0x20_0000 0x40_0000 7 k.paging ≡ some s1
      → map_elf cr3 init_elf (programs_of init_elf (calls.bytes k.io)) s1 (calls.bytes k.io)
        ≡ some (elf_end, s2, m2)
      → resource_table_alloc arena resources_initial_cap k.heap ≡ some (resources, heap)
      → resources ≢ 0
      → enter_ring_3_init calls table_alloc
          (suc fuel)
          arena
          cr3
          init_elf
          keyboard_pipe
          print_pipe
          (cleared 128)
          k
        ≡ some (
          e_entry init_elf (user_stack m2),
          entered_state elf_end resources s2 heap
              (table_of keyboard_pipe print_pipe)
              (user_stack m2),
        )
  unfolding enter_ring_3_init get_new_pid entered_state
  enter-run elf_end resources s1 s2 heap m2 a b c nn =
      let test : (resources == 0) ≡ false = ground (arith, nn) in
      let t = user_table-cleared table_alloc fuel keyboard_pipe print_pipe in
      rw (a, b, c, test, t) refl

  -- When there is memory, and that of the new table of resources is cleared, `enter_ring_3_init` enters the program of the
  -- file, as the current process. There `read_syscall` of the descriptor 0 reads the pipe of the keyboard, and
  -- `write_syscall` of the descriptor 1 writes to the pipe of the screen.
  pub enter_ring_3_init_lem :
      (elf_end resources : ℕ) (s1 s2 : Tables) (heap : Mem) (m2 : Bytes)
      → allocate_region cr3 0x20_0000 0x40_0000 7 k.paging ≡ some s1
      → map_elf cr3 init_elf (programs_of init_elf (calls.bytes k.io)) s1 (calls.bytes k.io)
        ≡ some (elf_end, s2, m2)
      → resource_table_alloc arena resources_initial_cap k.heap ≡ some (resources, heap)
      → resources ≢ 0
      → (k' : Kernel W) × (enter_ring_3_init calls table_alloc
            (suc fuel)
            arena
            cr3
            init_elf
            keyboard_pipe
            print_pipe
            (cleared 128)
            k
          ≡ some (e_entry init_elf (user_stack m2), k'))
        × (get_current_process k' ≡ get_current_process k)
        × ((k'.users (get_current_process k)).elf_end ≡ elf_end)
        × ((e : Machine W) (buf len : ℕ)
            → (read_syscall e 0 buf len k'
                ≡ passed k' (e.streams.pipe_read keyboard_pipe buf len k'.io))
              × (write_syscall e 1 buf len k'
                  ≡ passed k' (e.streams.pipe_write print_pipe buf len k'.io)))
  unfolding entered_state set_user get_new_pid set_pid
  enter_ring_3_init_lem elf_end resources s1 s2 heap m2 a b c nn =
      let p = get_current_process k in
      let t = table_of keyboard_pipe print_pipe in
      let k' = entered_state elf_end resources s2 heap t (user_stack m2) in
      let here : (p == p) ≡ true = ground arith in
      let there : (resources == resources) ≡ true = ground arith in
      let found : k'.tables (k'.users p).resources ≡ t = rw (here, there) refl in
      (
        k',
        enter-run elf_end resources s1 s2 heap m2 a b c nn,
        refl,
        rw here refl,
        λ e buf len. (
          read-first e k' keyboard_pipe print_pipe buf len found,
          write-second e k' keyboard_pipe print_pipe buf len found,
        ),
      )
