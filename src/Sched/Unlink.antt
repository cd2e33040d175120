-- ===== src/Sched/Unlink.antt =====
-- The loop of `remove_proc_from_list` in src/sched.c.
use bayos_kernel.Sched.{next_of, Procs, set_next, remove_loop}
use bayos_kernel.Sched.Chains.{Linked, Linked-outside, Linked-at, Linked-list, Without, IsDistinct}
use bayos_kernel.Sched.ProcessList.{unlinked, Relinked}
use bayos_kernel.Common.{
  ℕ, zero, suc, ◌<◌, ◌≡◌, refl, sym, ap, ◌∙◌, ◌⊎◌, inl, inr, some, List, [], ◌∷◌, length, arith,
  Bool-cases, ◌≢◌, ◌==◌, if◌then◌else◌, ==_iff,
}

-- The list without the first place of `p`.
unfoldable pub without : ℕ → List ℕ → List ℕ
without p [] = []
without p (q ∷ qs) = if q == p then qs else q ∷ without p qs

pub without-hit : (p q : ℕ) (qs : List ℕ) → q ≡ p → without p (q ∷ qs) ≡ qs
unfolding without
without-hit p q qs e = ground arith

pub without-miss : (p q : ℕ) (qs : List ℕ) → q ≢ p → without p (q ∷ qs) ≡ q ∷ without p qs
unfolding without
without-miss p q qs ne = ground arith

-- The two writes that take `p` out behind `l`.
take_out : (m : Procs) (l p : ℕ) → Procs
take_out m l p = set_next (set_next m l (m p).next) p 0

remove-end :
    (fuel : ℕ) (m : Procs) (l p : ℕ) → (m l).next ≡ 0 → remove_loop (suc fuel) m l p ≡ some m
unfolding remove_loop
remove-end fuel m l p e = ground arith

remove-hit :
    (fuel : ℕ) (m : Procs) (l p : ℕ)
    → 0 < p
    → (m l).next ≡ p
    → remove_loop (suc fuel) m l p ≡ some (take_out m l p)
unfolding remove_loop take_out
remove-hit fuel m l p pos e = ground arith

remove-step :
    (fuel : ℕ) (m : Procs) (l p q : ℕ)
    → 0 < q
    → q ≢ p
    → (m l).next ≡ q
    → remove_loop (suc fuel) m l p ≡ remove_loop fuel m q p
unfolding remove_loop
remove-step fuel m l p q pos ne e = ground arith

pub set_next-same : (m : Procs) (l p a : ℕ) → unlinked (set_next m l p a) ≡ unlinked (m a)
unfolding set_next unlinked
set_next-same m l p a = ground arith

set_next-other : (m : Procs) (l p a : ℕ) → a ≢ l → (set_next m l p a).next ≡ (m a).next
unfolding set_next
set_next-other m l p a ne = ground arith

pub set_next-here : (m : Procs) (l p : ℕ) → (set_next m l p l).next ≡ p
unfolding set_next
set_next-here m l p = ground arith

-- a write outside of the list
pub Linked-set_next :
    (m : Procs) (b n p : ℕ) (qs : List ℕ)
    → Without b qs
    → Linked (next_of m) p qs
    → Linked (next_of (set_next m b n)) p qs
Linked-set_next m b n p qs w =
    Linked-outside (next_of m) (next_of (set_next m b n)) p qs b w (set_next-other m b n)

take_out-Relinked :
    (m : Procs) (l p : ℕ) (qs : List ℕ)
    → 0 < l
    → l ≢ p
    → Linked (next_of m) (m p).next qs
    → Without l qs
    → Without p qs
    → Relinked m (take_out m l p) l p (l ∷ p ∷ qs) (l ∷ qs)
unfolding Linked Without take_out
take_out-Relinked m l p qs pos ne c wl wp = record {
  linked = (refl, pos, Linked-at _ qs head rest);
  outside = λ a n w.
      set_next-other (set_next m l (m p).next) p 0 a n ∙ set_next-other m l (m p).next a w.0;
  same = λ a. set_next-same (set_next m l (m p).next) p 0 a ∙ set_next-same m l (m p).next a;
}
  where
    head : (take_out m l p l).next ≡ (m p).next
    head = set_next-other (set_next m l (m p).next) p 0 l ne ∙ set_next-here m l (m p).next

    rest : Linked (next_of (take_out m l p)) (m p).next qs
    rest = Linked-set_next _ p 0 _ qs wp (Linked-set_next m l (m p).next _ qs wl c)

-- The list behind `l`, with `p` out of it. A process that is taken out has no link.
pub record Removed (m m' : Procs) (l p : ℕ) (qs : List ℕ) : Type 0 where
  pub relinked : Relinked m m' l p (l ∷ qs) (l ∷ without p qs)
  pub cut : Without p qs ⊎ ((m' p).next ≡ 0)

Removed-hit :
    (m : Procs) (l p q : ℕ) (qs : List ℕ)
    → 0 < l
    → l ≢ p
    → q ≡ p
    → Linked (next_of m) (m p).next qs
    → Without l qs
    → Without p qs
    → Removed m (take_out m l p) l p (q ∷ qs)
unfolding take_out Without
Removed-hit m l p q qs pos ne e c wl wp =
    let r = take_out-Relinked m l p qs pos ne c wl wp in
    record {
      relinked = record {
        linked = rw (sym (without-hit p q qs e)) at r.linked;
        outside = λ a n w. r.outside a n (w.0, (n, w.1.1));
        same = r.same;
      };
      cut = inr (set_next-here (set_next m l (m p).next) p 0);
    }

Removed-step :
    {m m' : Procs} (l p q : ℕ) (qs : List ℕ)
    → 0 < l
    → l ≢ p
    → q ≢ p
    → 0 < q
    → (m l).next ≡ q
    → Without l (q ∷ qs)
    → Removed m m' q p qs
    → Removed m m' l p (q ∷ qs)
unfolding Without Linked
Removed-step {m} {m'} l p q qs pos ne other qpos at w r =
    let link = r.relinked.outside l ne w in
    let chain : Linked (next_of m') l (l ∷ q ∷ without p qs) =
      (refl, pos, (link ∙ at, qpos, r.relinked.linked.2)) in
    record {
      relinked = record {
        linked =
            Linked-list (next_of m') l (ap (λ w. l ∷ w) (sym (without-miss p q qs other))) chain;
        outside = λ a n v. r.relinked.outside a n v.1;
        same = r.relinked.same;
      };
      cut = elim r.cut [ inl v ↦ inl (λ e. other (sym e), v) | inr e ↦ inr e ];
    }

pub remove-Removed :
    (fuel : ℕ) (m : Procs) (l p : ℕ) (ls : List ℕ)
    → length ls < fuel
    → 0 < l
    → l ≢ p
    → 0 < p
    → Linked (next_of m) (m l).next ls
    → IsDistinct (l ∷ ls)
    → (m' : Procs) × (remove_loop fuel m l p ≡ some m') × Removed m m' l p ls
unfolding Linked Without IsDistinct without
remove-Removed zero m l p ls h pos ne pp c d = absurd (omega arith)
remove-Removed (suc f) m l p [] h pos ne pp c d =
    let chain : Linked (next_of m) l (l ∷ []) = (refl, pos, c) in
    (
      m,
      remove-end f m l p c,
      record {
        relinked = record { linked = chain; outside = λ a n w. refl; same = λ a. refl };
        cut = inl tt;
      },
    )
remove-Removed (suc f) m l p (q ∷ qs) h pos ne pp c d = elim (Bool-cases (q == p)) [
  | inl hit ↦
      let e = (==_iff q p).0 hit in
      (
        take_out m l p,
        remove-hit f m l p pp (c.0 ∙ e),
        Removed-hit m l p q qs pos ne e (rw e at c.2) d.0.1 (rw e at d.1.0),
      )
  | inr miss ↦
      let other : q ≢ p = ground (arith, miss) in
      let (m', run, r) = remove-Removed f m q p qs (omega arith) c.1 other pp c.2 d.1 in
      (
        m',
        remove-step f m l p q c.1 other c.0 ∙ run,
        Removed-step l p q qs pos ne other c.1 c.0 d.0 r,
      )
]

without-Without : (a p : ℕ) (qs : List ℕ) → Without a qs → Without a (without p qs)
unfolding Without without
without-Without a p [] w = tt
without-Without a p (q ∷ qs) w = ground (arith, w.0, w.1, without-Without a p qs w.1)

pub without-IsDistinct : (p : ℕ) (qs : List ℕ) → IsDistinct qs → IsDistinct (without p qs)
unfolding IsDistinct without
without-IsDistinct p [] d = tt
without-IsDistinct p (q ∷ qs) d =
    ground (arith, d.0, d.1, without-Without q p qs d.0, without-IsDistinct p qs d.1)

-- the one place of `p` is gone
pub without-gone : (p : ℕ) (qs : List ℕ) → IsDistinct qs → Without p (without p qs)
unfolding IsDistinct without Without
without-gone p [] d = tt
without-gone p (q ∷ qs) d = ground (arith, d.0, without-gone p qs d.1)
