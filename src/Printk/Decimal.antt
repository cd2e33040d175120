-- ===== src/Printk/Decimal.antt =====
-- `format_spec_d` of src/printk.c puts out the text of its number.
use bayos_kernel.Printk.{Sinks, putchar, format_spec_d}
use bayos_kernel.Printk.Text.{
  digits, decimal_digit, decimal_text, int_text, is_int, emit, emit-append, format_pos_small,
  format_pos_large, format_negsuc,
}
use native.Mathlib.Nat.{pow-zero, pow-suc}
use bayos_kernel.Common.{
  ℕ, zero, suc, ◌+◌, ◌/◌, ◌%◌, ◌^◌, ◌<◌, ◌≤◌, ◌≡◌, refl, ap, ◌∙◌, List, [], ◌∷◌, ◌++◌, length,
  length-append, arith, ◌==◌, if◌then◌else◌, ℤ, pos, negsuc, true, ◌⊎◌, inl, inr, Bool-cases,
  ==_iff,
}

text_of : (fuel n : ℕ) → List ℕ
text_of fuel n = if n == 0 then b'0' ∷ [] else digits decimal_digit 10 fuel n

digits-zero : (fuel : ℕ) → digits decimal_digit 10 fuel 0 ≡ []
unfolding digits
digits-zero zero = refl
digits-zero (suc fuel) = refl

digits-suc :
    (fuel n : ℕ)
    → 0 < n
    → digits decimal_digit 10 (suc fuel) n
      ≡ digits decimal_digit 10 fuel (n / 10) ++ (b'0' + n % 10) ∷ []
unfolding digits decimal_digit
digits-suc fuel n h = ground (arith, h)

text_small : (fuel n : ℕ) → n < 10 → text_of (suc fuel) n ≡ (b'0' + n) ∷ []
unfolding text_of
text_small fuel n h = elim (Bool-cases (n == 0)) [
  | inl e ↦ rw e (ap (λ d. d ∷ []) (omega (arith, (==_iff n 0).0 e)))
  | inr e ↦
      let tenth : n / 10 ≡ 0 = omega (arith, h) in
      rw e (
        digits-suc fuel n (ground (arith, e))
        ∙ ap (λ k. digits decimal_digit 10 fuel k ++ (b'0' + n % 10) ∷ []) tenth
        ∙ ap (λ ds. ds ++ (b'0' + n % 10) ∷ []) (digits-zero fuel)
        ∙ ap (λ d. (b'0' + d) ∷ []) (omega (arith, h)))
]

text_large :
    (fuel n : ℕ) → 10 ≤ n → text_of (suc fuel) n ≡ text_of fuel (n / 10) ++ (b'0' + n % 10) ∷ []
unfolding text_of
text_large fuel n h = let step = digits-suc fuel n (omega (arith, h)) in ground (arith, h, step)

small_or_large : (n : ℕ) → (n < 10) ⊎ (10 ≤ n)
small_or_large n = omega arith

module _ {W : Type 0} (sinks : Sinks W) (type : ℕ) where
  format_pos :
      (fuel n : ℕ) (w : W)
      → n < 10 ^ suc fuel
      → format_spec_d sinks type (suc fuel) (pos n) w
        ≡ (length (text_of (suc fuel) n), emit sinks type (text_of (suc fuel) n) w)
  unfolding emit
  format_pos zero n w h =
      let small : n < 10 = omega (arith, h, pow-suc 10 0, pow-zero 10) in
      rw (text_small zero n small) (format_pos_small sinks type zero n w small)
  format_pos (suc fuel) n w h = elim (small_or_large n) [
    | inl small ↦
        rw (text_small (suc fuel) n small) (format_pos_small sinks type (suc fuel) n w small)
    | inr large ↦
        let ih = format_pos fuel (n / 10) w (omega (arith, h, pow-suc 10 (suc fuel))) in
        let step = format_pos_large sinks type (suc fuel) n w large in
        let ends = emit-append sinks type (text_of (suc fuel) (n / 10)) ((b'0' + n % 10) ∷ []) w in
        let long = length-append (text_of (suc fuel) (n / 10)) ((b'0' + n % 10) ∷ []) in
        rw (text_large (suc fuel) n large, ends, long)
          (step
            ∙ ap (λ r. (0 + r.0 + 1, putchar sinks type (b'0' + n % 10) r.1)) ih
            ∙ ap
                (λ k. (
                  k,
                  putchar sinks type (b'0' + n % 10)
                      (emit sinks type (text_of (suc fuel) (n / 10)) w),
                ))
                (omega arith))
  ]

  pub format_spec_d_lem :
      (z : ℤ) (w : W)
      → is_int z ≡ true
      → format_spec_d sinks type 10 z w ≡ (length (int_text z), emit sinks type (int_text z) w)
  unfolding int_text decimal_text text_of is_int emit
  format_spec_d_lem (pos n) w h = format_pos 9 n w (ground (arith, h))
  format_spec_d_lem (negsuc n) w h =
      format_negsuc sinks type 9 n w (ground (arith, h))
      ∙ ap (λ r. (1 + r.0, r.1))
          (format_pos 9 (n + 1) (putchar sinks type b'-' w) (ground (arith, h)))
      ∙ ap (λ k. (k, emit sinks type (text_of 10 (n + 1)) (putchar sinks type b'-' w)))
          (omega arith)
