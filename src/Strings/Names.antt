-- ===== src/Strings/Names.antt =====
-- `memcmp` of src/string.c as the test that two strings are equal.
use bayos_kernel.Strings.{Bytes, compare_loop, memcmp}
use bayos_kernel.Strings.Compares.{Holds, compare-same, compare-less, compare-more}
use bayos_kernel.Common.{
  ℕ, zero, suc, ◌+◌, ◌<◌, ◌≡◌, ◌≢◌, ◌↔◌, refl, sym, ap, ◌∙◌, List, [], ◌∷◌, length, arith, is_zero,
  Bool, true, false, inl, inr, ◌&&◌, ◌==◌, ltb, Bool-cases, ==_iff,
}

-- The test that two names are equal.
unfoldable pub same_name : List ℕ → List ℕ → Bool
same_name [] [] = true
same_name [] (d ∷ ds) = false
same_name (c ∷ cs) [] = false
same_name (c ∷ cs) (d ∷ ds) = let rest = same_name cs ds in c == d && rest

same_name-equal : (cs ds : List ℕ) → same_name cs ds ≡ true → cs ≡ ds
unfolding same_name
same_name-equal [] [] h = refl
same_name-equal [] (d ∷ ds) h = absurd (ground (arith, h))
same_name-equal (c ∷ cs) [] h = absurd (ground (arith, h))
same_name-equal (c ∷ cs) (d ∷ ds) h =
    let first : c ≡ d = ground (arith, h) in
    let rest = same_name-equal cs ds (ground (arith, h)) in rw (first, rest) refl

same_name_self : (cs : List ℕ) → same_name cs cs ≡ true
unfolding same_name
same_name_self [] = refl
same_name_self (c ∷ cs) = ground (arith, same_name_self cs)

pub same_name_iff : (cs ds : List ℕ) → (same_name cs ds ≡ true) ↔ (cs ≡ ds)
same_name_iff cs ds = (same_name-equal cs ds, λ e. rw e (same_name_self ds))

differ :
    (n i p q : ℕ) (m : Bytes)
    → m (p + i) ≢ m (q + i)
    → is_zero (compare_loop (suc n) i p q m) ≡ false
differ n i p q m ne = elim (Bool-cases (ltb (m (p + i)) (m (q + i)))) [
  | inl t ↦ rw (compare-less n i p q m (ground (arith, t))) refl
  | inr f ↦ rw (compare-more n i p q m (ground (arith, f, ne))) refl
]

names_from :
    (i p q a b : ℕ) (m : Bytes) (cs ds : List ℕ)
    → a ≡ p + i
    → b ≡ q + i
    → Holds m a cs
    → Holds m b ds
    → is_zero (compare_loop (suc (length ds)) i p q m) ≡ same_name cs ds
unfolding Holds same_name compare_loop
names_from i p q a b m [] [] ea eb u v =
    rw (compare-same 0 i p q m (ap m (sym ea) ∙ u ∙ sym v ∙ ap m eb)) refl
names_from i p q a b m [] (d ∷ ds) ea eb u (v, o, w) =
    let x = ap m ea in
    let y = ap m eb in differ (suc (length ds)) i p q m (λ e. omega (arith, e, u, v, o, x, y))
names_from i p q a b m (c ∷ cs) [] ea eb (u, o, w) v =
    let x = ap m ea in let y = ap m eb in differ 0 i p q m (λ e. omega (arith, e, u, v, o, x, y))
names_from i p q a b m (c ∷ cs) (d ∷ ds) ea eb (u, o, w) (v, o', w') =
    let x = ap m ea in
    let y = ap m eb in
    let rest =
      names_from (i + 1) p q (a + 1) (b + 1) m cs ds (omega (arith, ea)) (omega (arith, eb)) w w' in
    elim (Bool-cases (c == d)) [
      | inl t ↦
          let e = (==_iff c d).0 t in
          ap is_zero (compare-same (suc (length ds)) i p q m (omega (arith, x, y, u, v, e)))
          ∙ rest
          ∙ rw t refl
      | inr f ↦
          let ne : c ≢ d = ground (arith, f) in
          differ (suc (length ds)) i p q m (λ e. ne (omega (arith, e, u, v, x, y))) ∙ rw f refl
    ]

-- `memcmp` of two strings over the length of the second one and its terminator is 0 if they are equal, and
-- only then.
pub memcmp-same :
    (p q n : ℕ) (m : Bytes) (cs ds : List ℕ)
    → n ≡ length ds + 1
    → Holds m p cs
    → Holds m q ds
    → is_zero (memcmp p q n m) ≡ same_name cs ds
unfolding memcmp
memcmp-same p q n m cs ds e u v =
    let s : n ≡ suc (length ds) = omega (arith, e) in
    ap (λ k. is_zero (compare_loop k 0 p q m)) s
    ∙ names_from 0 p q p q m cs ds (omega arith) (omega arith) u v

-- `memcmp` reads only the two blocks that it compares.
pub memcmp-frame :
    (p q n : ℕ) (m m' : Bytes)
    → ((k : ℕ) → k < n → m' (p + k) ≡ m (p + k))
    → ((k : ℕ) → k < n → m' (q + k) ≡ m (q + k))
    → memcmp p q n m' ≡ memcmp p q n m
unfolding memcmp
memcmp-frame p q n m m' u v = go n 0 (λ k h. u k (omega arith)) (λ k h. v k (omega arith))
  where
    go :
        (r i : ℕ)
        → ((k : ℕ) → k < i + r → m' (p + k) ≡ m (p + k))
        → ((k : ℕ) → k < i + r → m' (q + k) ≡ m (q + k))
        → compare_loop r i p q m' ≡ compare_loop r i p q m
    go zero i u v = unfold compare_loop in refl
    go (suc r) i u v =
        let rest = go r (i + 1) (λ k h. u k (omega arith)) (λ k h. v k (omega arith)) in
        unfold compare_loop in rw (u i (omega arith), v i (omega arith), rest) refl
