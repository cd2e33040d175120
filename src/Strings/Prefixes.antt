-- ===== src/Strings/Prefixes.antt =====
-- `strncmp` of src/string.c as the test for a prefix.
use bayos_kernel.Strings.{Bytes, strncmp, strncmp_loop}
use bayos_kernel.Strings.Compares.{Holds}
use bayos_kernel.Common.{
  ℕ, suc, ◌+◌, ◌<◌, ◌≡◌, refl, sym, ap, ◌∙◌, ◌≢◌, true, false, List, [], ◌∷◌, ◌++◌, length, get_or,
  arith, ℕ_discrete, is_zero, ◌↔◌,
}

abbrev tail_of : List ℕ → List ℕ
tail_of [] = []
tail_of (x ∷ xs) = xs

pub Holds-at : {p q : ℕ} (m : Bytes) (cs : List ℕ) → p ≡ q → Holds m p cs → Holds m q cs
Holds-at m cs e h = rw e at h

compare-equal :
    (n i s1 s2 : ℕ) (m : Bytes)
    → m (s1 + i) ≡ m (s2 + i)
    → 0 < m (s2 + i)
    → strncmp_loop (suc n) i s1 s2 m ≡ strncmp_loop n (i + 1) s1 s2 m
unfolding strncmp_loop
compare-equal n i s1 s2 m e p = ground (arith, e, p)

compare-other :
    (n i s1 s2 : ℕ) (m : Bytes)
    → m (s1 + i) ≢ m (s2 + i)
    → is_zero (strncmp_loop (suc n) i s1 s2 m) ≡ false
unfolding strncmp_loop
compare-other n i s1 s2 m ne = ground (arith, ne)

-- `strncmp` of a path and a mount point, over the length of the latter, is 0 exactly for a prefix.
prefix_loop :
    (i s1 s2 : ℕ) (m : Bytes) (ps cs : List ℕ)
    → Holds m (s1 + i) ps
    → Holds m (s2 + i) cs
    → (is_zero (strncmp_loop (length cs) i s1 s2 m) ≡ true) ↔ ((rest : List ℕ) × (ps ≡ cs ++ rest))
unfolding Holds strncmp_loop
prefix_loop i s1 s2 m ps [] a b = (λ h. (ps, refl), λ w. refl)
prefix_loop i s1 s2 m [] (c ∷ cs) a (e, p, b) = (
  λ h.
      absurd
        (ground (arith, compare-other (length cs) i s1 s2 m (λ q. omega (arith, q, a, e, p)), h)),
  λ w. absurd (omega (arith, ap length w.1)),
)
prefix_loop i s1 s2 m (d ∷ ps) (c ∷ cs) (f, q, a) (e, p, b) = elim (ℕ_discrete d c) [
  | yes same ↦
      let ih =
        prefix_loop (i + 1) s1 s2 m ps cs (Holds-at m ps (omega arith) a)
          (Holds-at m cs (omega arith) b) in
      let step = compare-equal (length cs) i s1 s2 m (f ∙ same ∙ sym e) (omega (arith, e, p)) in
      (
        λ h.
            let (rest, parts) = ih.0 (ap (λ z. is_zero z) (sym step) ∙ h) in
            (rest, ap (λ t. t ∷ ps) same ∙ ap (λ t. c ∷ t) parts),
        λ w. ap (λ z. is_zero z) step ∙ ih.1 (w.0, ap tail_of w.1),
      )
  | no other ↦ (
    λ h.
        absurd
          (ground (arith, compare-other (length cs) i s1 s2 m (λ g. other (sym f ∙ g ∙ e)), h)),
    λ w. absurd (other (ap (λ t. get_or t 0 0) w.1)),
  )
]

-- `strncmp` of two strings, over the length of the second one, is 0 exactly if this is a prefix of the first.
pub strncmp-prefix :
    (s1 s2 : ℕ) (m : Bytes) (ps cs : List ℕ)
    → Holds m s1 ps
    → Holds m s2 cs
    → (is_zero (strncmp s1 s2 (length cs) m) ≡ true) ↔ ((rest : List ℕ) × (ps ≡ cs ++ rest))
unfolding strncmp
strncmp-prefix s1 s2 m ps cs a b =
    prefix_loop 0 s1 s2 m ps cs (Holds-at m ps (omega arith) a) (Holds-at m cs (omega arith) b)
