-- ===== src/Strings/Compares.antt =====
-- `memcmp`, `strlen` and `strcmp` of src/string.c.
use bayos_kernel.Common.{◌↔◌}
use bayos_kernel.Strings.{Bytes, compare_loop, memcmp, strlen, strcmp, byte_difference}
use bayos_kernel.Common.{
  ℕ, zero, suc, ◌+◌, ◌<◌, ◌≡◌, refl, sym, ap, ◌∙◌, ◌≢◌, ◌⊎◌, inl, inr, some, List, [], ◌∷◌, length,
  arith, ltb, ◌==◌, if◌then◌else◌, Bool-cases, ==_iff, ℤ, pos, negsuc,
}

-- Either the `n` bytes from `i` on agree, and the result is 0, or its sign is that of the first two
-- that do not.
unfoldable pub Compared : (n i s1 s2 : ℕ) → Bytes → ℤ → Type 0
Compared n i s1 s2 m r =
    ((r ≡ pos 0) × ((k : ℕ) → k < n → m (s1 + (i + k)) ≡ m (s2 + (i + k))))
    ⊎ ((k : ℕ) × (k < n)
        × ((j : ℕ) → j < k → m (s1 + (i + j)) ≡ m (s2 + (i + j)))
        × (((r ≡ negsuc 0) × (m (s1 + (i + k)) < m (s2 + (i + k))))
            ⊎ ((r ≡ pos 1) × (m (s2 + (i + k)) < m (s1 + (i + k))))))

pub compare-same :
    (n i s1 s2 : ℕ) (m : Bytes)
    → m (s1 + i) ≡ m (s2 + i)
    → compare_loop (suc n) i s1 s2 m ≡ compare_loop n (i + 1) s1 s2 m
unfolding compare_loop
compare-same n i s1 s2 m e = ground (arith, e)

pub compare-less :
    (n i s1 s2 : ℕ) (m : Bytes)
    → m (s1 + i) < m (s2 + i)
    → compare_loop (suc n) i s1 s2 m ≡ negsuc 0
unfolding compare_loop
compare-less n i s1 s2 m h = ground (arith, h)

pub compare-more :
    (n i s1 s2 : ℕ) (m : Bytes) → m (s2 + i) < m (s1 + i) → compare_loop (suc n) i s1 s2 m ≡ pos 1
unfolding compare_loop
compare-more n i s1 s2 m h = ground (arith, h)

-- `m` has the string `cs`, with its terminator, from `s` on.
unfoldable pub Holds : Bytes → ℕ → List ℕ → Type 0
Holds m s [] = m s ≡ 0
Holds m s (c ∷ cs) = (m s ≡ c) × (0 < c) × Holds m (s + 1) cs

strlen-end : (fuel s : ℕ) (m : Bytes) → m s ≡ 0 → strlen (suc fuel) s m ≡ some 0
unfolding strlen
strlen-end fuel s m e = ground (arith, e)

strlen-step :
    {n : ℕ} (fuel s : ℕ) (m : Bytes)
    → 0 < m s
    → strlen fuel (s + 1) m ≡ some n
    → strlen (suc fuel) s m ≡ some (n + 1)
unfolding strlen
strlen-step fuel s m h e = rw e (ground (arith, h))

-- `strlen` of a string returns its length; one round more than that is enough.
pub strlen_lem :
    (fuel s : ℕ) (m : Bytes) (cs : List ℕ)
    → length cs < fuel
    → Holds m s cs
    → strlen fuel s m ≡ some (length cs)
unfolding Holds
strlen_lem zero s m cs h c = absurd (omega arith)
strlen_lem (suc f) s m [] h c = strlen-end f s m c
strlen_lem (suc f) s m (c ∷ cs) h (e, p, rest) =
    strlen-step f s m (omega (arith, e, p)) (strlen_lem f (s + 1) m cs (omega arith) rest)
    ∙ ap some (omega arith)

-- The difference of the first bytes in which two strings differ, a terminator being 0.
unfoldable pub string_difference : List ℕ → List ℕ → ℤ
string_difference [] [] = pos 0
string_difference [] (d ∷ ds) = byte_difference 0 d
string_difference (c ∷ cs) [] = byte_difference c 0
string_difference (c ∷ cs) (d ∷ ds) =
    let rest = string_difference cs ds in if c == d then rest else byte_difference c d

strcmp-stop :
    (fuel s1 s2 : ℕ) (m : Bytes)
    → (m s1 ≡ 0) ⊎ (m s1 ≢ m s2)
    → strcmp (suc fuel) s1 s2 m ≡ some (byte_difference (m s1) (m s2))
unfolding strcmp
strcmp-stop fuel s1 s2 m h = ground (arith, h)

strcmp-step :
    (fuel s1 s2 : ℕ) (m : Bytes)
    → 0 < m s1
    → m s1 ≡ m s2
    → strcmp (suc fuel) s1 s2 m ≡ strcmp fuel (s1 + 1) (s2 + 1) m
unfolding strcmp
strcmp-step fuel s1 s2 m h e = ground (arith, h, e)

strcmp-some :
    (fuel s1 s2 : ℕ) (m : Bytes) (cs ds : List ℕ)
    → length cs < fuel
    → Holds m s1 cs
    → Holds m s2 ds
    → strcmp fuel s1 s2 m ≡ some (string_difference cs ds)
unfolding Holds string_difference
strcmp-some zero s1 s2 m cs ds h a b = absurd (omega arith)
strcmp-some (suc f) s1 s2 m [] [] h a b = strcmp-stop f s1 s2 m (inl a) ∙ rw (a, b) refl
strcmp-some (suc f) s1 s2 m [] (d ∷ ds) h a b = strcmp-stop f s1 s2 m (inl a) ∙ rw (a, b.0) refl
strcmp-some (suc f) s1 s2 m (c ∷ cs) [] h a b =
    strcmp-stop f s1 s2 m (inr (omega (arith, a.0, a.1, b))) ∙ rw (a.0, b) refl
strcmp-some (suc f) s1 s2 m (c ∷ cs) (d ∷ ds) h a b =
    let rest = strcmp-some f (s1 + 1) (s2 + 1) m cs ds (omega arith) a.2 b.2 in
    elim (Bool-cases (c == d)) [
      | inl t ↦
          let e = (==_iff c d).0 t in
          strcmp-step f s1 s2 m (omega (arith, a.0, a.1)) (a.0 ∙ e ∙ sym b.0) ∙ rw t rest
      | inr n ↦
          let ne : c ≢ d = ground (arith, n) in
          strcmp-stop f s1 s2 m (inr (λ e. ne (sym a.0 ∙ e ∙ b.0))) ∙ rw (a.0, b.0, n) refl
    ]

difference-equal :
    (cs ds : List ℕ) (m : Bytes) (s1 s2 : ℕ)
    → Holds m s1 cs
    → Holds m s2 ds
    → string_difference cs ds ≡ pos 0
    → cs ≡ ds
unfolding Holds string_difference
difference-equal [] [] m s1 s2 a b e = refl
difference-equal [] (d ∷ ds) m s1 s2 a b e = absurd (ground (arith, b.1, e))
difference-equal (c ∷ cs) [] m s1 s2 a b e = absurd (ground (arith, a.1, e))
difference-equal (c ∷ cs) (d ∷ ds) m s1 s2 a b e = elim (Bool-cases (c == d)) [
  | inl t ↦
      let rest = difference-equal cs ds m (s1 + 1) (s2 + 1) a.2 b.2 (rw t at e) in
      rw ((==_iff c d).0 t, rest) refl
  | inr n ↦ absurd (ground (arith, n, e))
]

difference_self : (cs : List ℕ) → string_difference cs cs ≡ pos 0
unfolding string_difference
difference_self [] = refl
difference_self (c ∷ cs) = ground (arith, difference_self cs)

-- `strcmp` of two strings returns, with one round more than the first one is long, the difference of the
-- first bytes that differ, and 0 exactly if the strings are equal.
pub strcmp_lem :
    (fuel s1 s2 : ℕ) (m : Bytes) (cs ds : List ℕ)
    → length cs < fuel
    → Holds m s1 cs
    → Holds m s2 ds
    → (strcmp fuel s1 s2 m ≡ some (string_difference cs ds))
      × ((string_difference cs ds ≡ pos 0) ↔ (cs ≡ ds))
strcmp_lem fuel s1 s2 m cs ds h a b = (
  strcmp-some fuel s1 s2 m cs ds h a b,
  (difference-equal cs ds m s1 s2 a b, λ e. rw e (difference_self ds)),
)

-- the bytes behind equal first ones
agree-suc :
    (n i s1 s2 : ℕ) (m : Bytes)
    → m (s1 + i) ≡ m (s2 + i)
    → ((k : ℕ) → k < n → m (s1 + (i + 1 + k)) ≡ m (s2 + (i + 1 + k)))
    → (k : ℕ) → k < suc n
    → m (s1 + (i + k)) ≡ m (s2 + (i + k))
agree-suc n i s1 s2 m e rest zero h = ap m (omega arith) ∙ e ∙ ap m (omega arith)
agree-suc n i s1 s2 m e rest (suc k) h =
    ap m (omega arith) ∙ rest k (omega arith) ∙ ap m (omega arith)

Compared-suc :
    (n i s1 s2 : ℕ) (m : Bytes) (r : ℤ)
    → m (s1 + i) ≡ m (s2 + i)
    → Compared n (i + 1) s1 s2 m r
    → Compared (suc n) i s1 s2 m r
unfolding Compared
Compared-suc n i s1 s2 m r e (inl (z, all)) = inl (z, agree-suc n i s1 s2 m e all)
Compared-suc n i s1 s2 m r e (inr (k, lt, before, sign)) = inr (
  suc k,
  omega arith,
  λ j h. agree-suc k i s1 s2 m e before j h,
  (let there : i + suc k ≡ i + 1 + k = omega arith in rw there sign),
)

Compared-first :
    (n i s1 s2 : ℕ) (m : Bytes) (r : ℤ)
    → ((r ≡ negsuc 0) × (m (s1 + i) < m (s2 + i))) ⊎ ((r ≡ pos 1) × (m (s2 + i) < m (s1 + i)))
    → Compared (suc n) i s1 s2 m r
unfolding Compared
Compared-first n i s1 s2 m r sign =
    let here : i + 0 ≡ i = omega arith in
    inr (0, omega arith, λ j h. absurd (omega arith), rw here sign)

compare-Compared : (n i s1 s2 : ℕ) (m : Bytes) → Compared n i s1 s2 m (compare_loop n i s1 s2 m)
compare-Compared zero i s1 s2 m =
    unfold Compared compare_loop in inl (refl, λ k h. absurd (omega arith))
compare-Compared (suc n) i s1 s2 m =
    let rest = compare-Compared n (i + 1) s1 s2 m in
    elim (Bool-cases (ltb (m (s1 + i)) (m (s2 + i)))) [
      | inl t ↦
          let less : m (s1 + i) < m (s2 + i) = ground (arith, t) in
          rw (compare-less n i s1 s2 m less) (Compared-first n i s1 s2 m _ (inl (refl, less)))
      | inr f ↦ elim (Bool-cases (ltb (m (s2 + i)) (m (s1 + i)))) [
        | inl t ↦
            let more : m (s2 + i) < m (s1 + i) = ground (arith, t) in
            rw (compare-more n i s1 s2 m more) (Compared-first n i s1 s2 m _ (inr (refl, more)))
        | inr g ↦
            let e : m (s1 + i) ≡ m (s2 + i) = ground (arith, f, g) in
            rw (compare-same n i s1 s2 m e) (Compared-suc n i s1 s2 m _ e rest)
      ]
    ]

-- `memcmp` returns 0 if the two blocks agree, and otherwise -1 or 1, by the order of the first two
-- bytes that differ.
pub memcmp-Compared : (s1 s2 n : ℕ) (m : Bytes) → Compared n 0 s1 s2 m (memcmp s1 s2 n m)
unfolding memcmp
memcmp-Compared s1 s2 n m = compare-Compared n 0 s1 s2 m
