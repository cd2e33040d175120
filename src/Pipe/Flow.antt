-- ===== src/Pipe/Flow.antt =====
-- The bytes of a pipe of src/pipe.c go through in their order, in every run.
use bayos_kernel.Pipe.Runs.{
  Flow, Flows, created, asks_room, tries_room, puts, asks_byte, tries_byte, takes, locks, ran,
}
use bayos_kernel.Pipe.Steps.{after_room, after_put, after_byte, after_take}
use bayos_kernel.Sched.{Procs}
use bayos_kernel.Sched.Chains.{Without}
use bayos_kernel.Sem.Frame.{Disjoint}
use bayos_kernel.Sem.Claims.{sem_trywait-Claims, Claims-ran, sem_create-Claims}
use bayos_kernel.Pipe.{int_of_size-small, Pipe, new_pipe}
use bayos_kernel.Pipe.Ring.{Stored}
use native.Mathlib.Nat.{mod-eq_of_lt}
use bayos_kernel.Common.{List-cases, ℕ, suc, refl, ap, inl, inr, List, [], length, arith}

pub Flows-Flow :
    (len room ready : ℕ) (p : Pipe) (m : Procs) (written taken : List ℕ)
    → Flows len p m room ready written taken
    → Flow len p m room ready written taken
unfolding new_pipe Stored Disjoint Without
Flows-Flow len room ready p m written taken (created buffer h few) =
    rw (int_of_size-small len few) (record {
      bytes = [];
      order = refl;
      holds = record {
        size = refl;
        reads = h;
        writes = omega (arith, mod-eq_of_lt {n = 0} {m = len} h);
        stored = tt;
      };
      slots = len;
      sum = omega arith;
      writers = [];
      readers = [];
      apart = λ a. inl tt;
      empty = sem_create-Claims len m;
      full = sem_create-Claims 0 m;
    })
Flows-Flow len _ ready _ _ written taken (asks_room {p} {m} {room} c h ne r) =
    after_room p m c h ne (Flows-Flow len room ready p m written taken r)
Flows-Flow len _ ready _ _ written taken (tries_room {p} {m} {room} r) =
    let f = Flows-Flow len room ready p m written taken r in
    record {
      bytes = f.bytes;
      order = f.order;
      holds = record {
        size = f.holds.size;
        reads = f.holds.reads;
        writes = f.holds.writes;
        stored = f.holds.stored;
      };
      slots = f.slots;
      sum = f.sum;
      writers = f.writers;
      readers = f.readers;
      apart = f.apart;
      empty = sem_trywait-Claims p.sem_empty m f.writers f.empty;
      full = f.full;
    }
Flows-Flow len _ _ _ _ _ taken (puts {p} {m} {room} {ready} {written} b r) =
    after_put p m b (Flows-Flow len (suc room) ready p m written taken r)
Flows-Flow len _ _ _ _ written taken (asks_byte {p} {m} {room} {ready} c h ne r) =
    after_byte p m c h ne (Flows-Flow len room ready p m written taken r)
Flows-Flow len _ _ _ _ written taken (tries_byte {p} {m} {room} {ready} r) =
    let f = Flows-Flow len room ready p m written taken r in
    record {
      bytes = f.bytes;
      order = f.order;
      holds = record {
        size = f.holds.size;
        reads = f.holds.reads;
        writes = f.holds.writes;
        stored = f.holds.stored;
      };
      slots = f.slots;
      sum = f.sum;
      writers = f.writers;
      readers = f.readers;
      apart = f.apart;
      empty = f.empty;
      full = sem_trywait-Claims p.sem_full m f.readers f.full;
    }
Flows-Flow len _ _ _ _ _ _ (takes {p} {m} {room} {ready} {written} {taken} r) =
    let f = Flows-Flow len room (suc ready) p m written taken r in
    elim (List-cases f.bytes) [
      | inl e ↦ absurd (omega (arith, f.full.sum, ap length e))
      | inr (b, bs, e) ↦ after_take p m b bs f e
    ]
Flows-Flow len room ready _ m written taken (locks {p} l r) =
    let f = Flows-Flow len room ready p m written taken r in
    record {
      bytes = f.bytes;
      order = f.order;
      holds = record {
        size = f.holds.size;
        reads = f.holds.reads;
        writes = f.holds.writes;
        stored = f.holds.stored;
      };
      slots = f.slots;
      sum = f.sum;
      writers = f.writers;
      readers = f.readers;
      apart = f.apart;
      empty = f.empty;
      full = f.full;
    }
Flows-Flow len room ready _ _ written taken (ran {p} {m} m' le lf r) =
    let f = Flows-Flow len room ready p m written taken r in
    record {
      bytes = f.bytes;
      order = f.order;
      holds = f.holds;
      slots = f.slots;
      sum = f.sum;
      writers = f.writers;
      readers = f.readers;
      apart = f.apart;
      empty = Claims-ran p.sem_empty m m' f.writers le f.empty;
      full = Claims-ran p.sem_full m m' f.readers lf f.full;
    }
