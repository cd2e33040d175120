-- ===== src/Vfs/Longest.antt =====
-- `vfs_get_mountpoint` of src/fs/vfs.c returns the longest mount point that a path is under.
use bayos_kernel.Vfs.{Vfs, matches, better}
use bayos_kernel.Vfs.Paths.{Under, matches-Under}
use bayos_kernel.Strings.Compares.{Holds, strlen_lem}
use bayos_kernel.Common.{
  ℕ, ◌+◌, ◌<◌, ◌≤◌, ◌≡◌, refl, ap, ◌⊎◌, inl, inr, true, false, some, List, length, get_or, arith,
  Bool-cases,
}

-- The mount point `mp` has a path that is the string `name`; `strlen` has fuel for it.
pub record Named (fuel mp : ℕ) (name : List ℕ) (v : Vfs) : Type 0 where
  pub mountpoint : 0 < mp
  pub path : 0 < (v.mountpoints mp).path
  pub held : Holds v.bytes (v.mountpoints mp).path name
  pub short : length name < fuel

module _ {fuel mp : ℕ} {name : List ℕ} {v : Vfs} (path best best_len : ℕ) where
  better-new :
      Named fuel mp name v
      → matches path (v.mountpoints mp) (length name) v.bytes ≡ true
      → (best ≡ 0) ⊎ (best_len < length name)
      → better fuel path mp best best_len v ≡ some (mp, length name)
  unfolding better
  better-new h t newer =
      rw (strlen_lem fuel (v.mountpoints mp).path v.bytes name h.short h.held, better)
        (ground (arith, h.mountpoint, h.path, t, newer))

  better-other :
      Named fuel mp name v
      → matches path (v.mountpoints mp) (length name) v.bytes ≡ false
      → better fuel path mp best best_len v ≡ some (best, best_len)
  unfolding better
  better-other h f =
      rw (strlen_lem fuel (v.mountpoints mp).path v.bytes name h.short h.held, better)
        (ground (arith, h.mountpoint, h.path, f))

  better-old :
      Named fuel mp name v
      → 0 < best
      → length name ≤ best_len
      → better fuel path mp best best_len v ≡ some (best, best_len)
  unfolding better
  better-old h b l = elim (Bool-cases (matches path (v.mountpoints mp) (length name) v.bytes)) [
    | inl t ↦
        rw (strlen_lem fuel (v.mountpoints mp).path v.bytes name h.short h.held, better)
          (ground (arith, h.mountpoint, h.path, t, b, l))
    | inr f ↦ better-other h f
  ]

-- Of the first `n` mount points of the list none has the path under it, and `best` is `NULL`; or `best` is one
-- of those that have, and no other of them is longer.
pub record Chosen (names : ℕ → List ℕ) (mps path : List ℕ) (n best : ℕ) : Type 0 where
  pub found : 0 < best
  pub under : Under (names best) path
  pub index : ℕ
  pub within : index < n
  pub listed : best ≡ get_or mps index 0
  pub longest :
      (j : ℕ)
      → j < n
      → Under (names (get_or mps j 0)) path
      → length (names (get_or mps j 0)) ≤ length (names best)

last_or_before : (n j : ℕ) → j < n + 1 → (j < n) ⊎ (j ≡ n)
last_or_before n j h = omega arith

by_length : (a b : ℕ) → (a < b) ⊎ (b ≤ a)
by_length a b = omega arith

unfoldable pub IsLongest : (names : ℕ → List ℕ) (mps path : List ℕ) (n best : ℕ) → Type 0
IsLongest names mps path n best =
    ((best ≡ 0) × ((j : ℕ) → j < n → ¬ Under (names (get_or mps j 0)) path))
    ⊎ Chosen names mps path n best

module _ (fuel : ℕ) (names : ℕ → List ℕ) (mps ps : List ℕ) (v : Vfs) (path : ℕ) where
  abbrev pub mp_at : ℕ → ℕ
  mp_at n = get_or mps n 0

  -- What one round makes of `best` and `best_len`.
  pub record Bettered (best best_len n : ℕ) : Type 0 where
    pub new : ℕ
    pub new_len : ℕ
    pub run : better fuel path (mp_at n) best best_len v ≡ some (new, new_len)
    pub longest : IsLongest names mps ps (n + 1) new
    pub len : 0 < new → new_len ≡ length (names new)

  not-Under :
      (n : ℕ)
      → Holds v.bytes path ps
      → Named fuel (mp_at n) (names (mp_at n)) v
      → matches path (v.mountpoints (mp_at n)) (length (names (mp_at n))) v.bytes ≡ false
      → ¬ Under (names (mp_at n)) ps
  not-Under n held named f u =
      let t =
        (matches-Under path (v.mountpoints (mp_at n)) v.bytes ps (names (mp_at n)) held
            named.held).1
          u in
      absurd (ground (arith, f, t))

  keeps_none :
      (n : ℕ)
      → ¬ Under (names (mp_at n)) ps
      → ((j : ℕ) → j < n → ¬ Under (names (mp_at j)) ps)
      → (j : ℕ) → j < n + 1
      → ¬ Under (names (mp_at j)) ps
  keeps_none n out none j h = elim (last_or_before n j h) [
    | inl l ↦ none j l
    | inr e ↦ λ u. out (rw (ap (λ k. names (mp_at k)) e) at u)
  ]

  keeps :
      (n best : ℕ)
      → (Under (names (mp_at n)) ps → length (names (mp_at n)) ≤ length (names best))
      → Chosen names mps ps n best
      → Chosen names mps ps (n + 1) best
  keeps n best below c = record {
    found = c.found;
    under = c.under;
    index = c.index;
    within = omega (arith, c.within);
    listed = c.listed;
    longest = λ j h u. elim (last_or_before n j h) [
      | inl l ↦ c.longest j l u
      | inr e ↦
          let same = ap (λ k. names (mp_at k)) e in
          let h = below (rw same at u) in omega (arith, ap length same, h)
    ];
  }

  takes :
      (n : ℕ)
      → 0 < mp_at n
      → Under (names (mp_at n)) ps
      → ((j : ℕ)
          → j < n
          → Under (names (mp_at j)) ps
          → length (names (mp_at j)) ≤ length (names (mp_at n)))
      → Chosen names mps ps (n + 1) (mp_at n)
  takes n found u above = record {
    found = found;
    under = u;
    index = n;
    within = omega arith;
    listed = refl;
    longest = λ j h w. elim (last_or_before n j h) [
      | inl l ↦ above j l w
      | inr e ↦ omega (arith, ap (λ k. length (names (mp_at k))) e)
    ];
  }

  pub better-Bettered :
      (best best_len n : ℕ)
      → Holds v.bytes path ps
      → Named fuel (mp_at n) (names (mp_at n)) v
      → IsLongest names mps ps n best
      → (0 < best → best_len ≡ length (names best))
      → Bettered best best_len n
  unfolding IsLongest
  better-Bettered best best_len n held named longest len =
      let under =
        matches-Under path (v.mountpoints (mp_at n)) v.bytes ps (names (mp_at n)) held named.held in
      elim (Bool-cases
        (matches path (v.mountpoints (mp_at n)) (length (names (mp_at n))) v.bytes)) [
          | inl t ↦ elim longest [
            | inl (e, none) ↦ record {
              new = mp_at n;
              new_len = length (names (mp_at n));
              run = better-new path best best_len named t (inl e);
              longest = inr (takes n named.mountpoint (under.0 t) (λ j l u. absurd (none j l u)));
              len = λ h. refl;
            }
            | inr c ↦ elim (by_length (length (names best)) (length (names (mp_at n)))) [
              | inl more ↦ record {
                new = mp_at n;
                new_len = length (names (mp_at n));
                run =
                    better-new path best best_len named t (inr (omega (arith, len c.found, more)));
                longest = inr (
                    takes n named.mountpoint (under.0 t)
                      (λ j l u. omega (arith, c.longest j l u, more)));
                len = λ h. refl;
              }
              | inr less ↦ record {
                new = best;
                new_len = best_len;
                run =
                    better-old path best best_len named c.found (omega (arith, len c.found, less));
                longest = inr (keeps n best (λ u. less) c);
                len = len;
              }
            ]
          ]
          | inr f ↦
              let out = not-Under n held named f in
              record {
                new = best;
                new_len = best_len;
                run = better-other path best best_len named f;
                longest = elim longest [
                  | inl (e, none) ↦ inl (e, keeps_none n out none)
                  | inr c ↦ inr (keeps n best (λ u. absurd (out u)) c)
                ];
                len = len;
              }
        ]
