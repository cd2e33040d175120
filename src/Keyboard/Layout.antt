-- ===== src/Keyboard/Layout.antt =====
-- The table of scan codes of src/keyboard.c.
use bayos_kernel.Common.{==_iff}
use bayos_kernel.Common.{Bool-cases, ◌∙◌}
use bayos_kernel.Keyboard.{scancode_to_ascii}
use bayos_kernel.Common.{
  ℕ, ◌≤◌, ◌<◌, ◌≡◌, refl, ◌≢◌, Bool, true, false, not, ◌&&◌, ◌||◌, arith, ltb, leb, ◌==◌, covered,
  covered_at, ◌⊎◌, inl, inr,
}

-- Behind the last mapped code, that of the space bar, there are none.
unmapped : (s : ℕ) → 0x3a ≤ s → scancode_to_ascii s ≡ 0
unfolding scancode_to_ascii
unmapped s h = ground (arith, h)

-- two keys of different codes that type the same
clash : ℕ → ℕ → Bool
clash s t =
    scancode_to_ascii s == scancode_to_ascii t && not (scancode_to_ascii s == 0) && not (s == t)

table : covered (λ s. covered (λ t. not (clash s t)) 0x3a) 0x3a ≡ true
unfolding covered clash scancode_to_ascii
table = refl

no_clash : (s t : ℕ) → s < 0x3a → t < 0x3a → clash s t ≡ false
no_clash s t p q =
    let row = covered_at (λ s. covered (λ t. not (clash s t)) 0x3a) 0x3a s p table in
    let entry = covered_at (λ t. not (clash s t)) 0x3a t q row in ground (arith, entry)

mapped_small : (s : ℕ) → scancode_to_ascii s ≢ 0 → s < 0x3a
mapped_small s ne = elim (Bool-cases (ltb s 0x3a)) [
  | inl t ↦ ground (arith, t)
  | inr f ↦ absurd (ne (unmapped s (ground (arith, f))))
]

-- No two keys type the same: a byte other than 0 comes from one scan code only.
pub scancode_to_ascii_injective :
    (s t : ℕ) → scancode_to_ascii s ≢ 0 → scancode_to_ascii s ≡ scancode_to_ascii t → s ≡ t
unfolding clash
scancode_to_ascii_injective s t ne e =
    let p = mapped_small s ne in
    let q = mapped_small t (λ z. ne (e ∙ z)) in ground (arith, no_clash s t p q, ne, e)

-- a digit, a lower-case letter, a space or a line feed
unfoldable pub is_text : ℕ → Bool
is_text c = leb b'0' c && leb c b'9' || leb b'a' c && leb c b'z' || c == b' ' || c == b'\n'

text_table : covered (λ s. scancode_to_ascii s == 0 || is_text (scancode_to_ascii s)) 0x3a ≡ true
unfolding covered is_text scancode_to_ascii
text_table = refl

-- Every scan code gives 0, as all those of keys that are let go (0x80 and more) do, or a digit, a
-- lower-case letter, a space or a line feed.
pub scancode_to_ascii_lem :
    (s : ℕ) → (scancode_to_ascii s ≡ 0) ⊎ ((s < 0x80) × (is_text (scancode_to_ascii s) ≡ true))
scancode_to_ascii_lem s = elim (Bool-cases (scancode_to_ascii s == 0)) [
  | inl t ↦ inl ((==_iff _ 0).0 t)
  | inr f ↦
      let small = mapped_small s (λ z. ground (arith, f, z)) in
      let row =
        covered_at (λ s. scancode_to_ascii s == 0 || is_text (scancode_to_ascii s)) 0x3a s small
          text_table in
      inr (omega (arith, small), ground (arith, row, f))
]
