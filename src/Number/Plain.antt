-- ===== src/Number/Plain.antt =====
-- `simple_strtoull` of a string that holds digits only.
use Prim.Native.Nat.{min}
use solace_os.Base.{
  ℕ, ◌+◌, ◌-◌, ◌≤◌, ◌<◌, ◌≡◌, refl, ◌∙◌, inl, inr, true, false, ◌||◌, some, List, [], ◌∷◌, ◌==◌,
  arith, Option-cases, uint64_max,
}
use solace_os.Text.{first_byte}
use solace_os.Number.{
  digit, digit_in, skip_digits, is_space, skip_space, skip_sign, has_hex_prefix, simple_strtoull,
}
use solace_os.Number.Value.{value, reads_base, number_part, simple_strtoull-value}

module _ (base d : ℕ) (b : base ≤ 16) (h : d < base) where
  pub digit_in-numeral : d < 10 → digit_in base (b'0' + d) ≡ some d
  unfolding digit_in digit
  digit_in-numeral l = ground (arith, b, h)

  pub digit_in-lower : 10 ≤ d → digit_in base (b'a' + (d - 10)) ≡ some d
  unfolding digit_in digit
  digit_in-lower l = ground (arith, b, h)

  pub digit_in-upper : 10 ≤ d → digit_in base (b'A' + (d - 10)) ≡ some d
  unfolding digit_in digit
  digit_in-upper l = ground (arith, b, h)

-- What a digit is not.
digit_plain :
    (base c : ℕ) {d : ℕ}
    → base ≤ 16
    → digit_in base c ≡ some d
    → (is_space c ≡ false)
      × (((c == b'+') || (c == b'-')) ≡ false)
      × (((c == b'x') || (c == b'X')) ≡ false)
unfolding digit_in digit is_space
digit_plain base c b e = (ground (arith, b, e), ground (arith, b, e), ground (arith, b, e))

module _ (base : ℕ) (b : base ≤ 16) where
  -- The first of some digits.
  first_digit :
      (c : ℕ) (s : List ℕ)
      → skip_digits base (c ∷ s) ≡ []
      → (d : ℕ) × (digit_in base c ≡ some d) × (skip_digits base s ≡ [])
  unfolding skip_digits
  first_digit c s e = elim (Option-cases (digit_in base c)) [
    | inl n ↦ let bad : ◌≡◌ {A = List ℕ} (c ∷ s) [] = rw (n, skip_digits) at e in cc
    | inr (d, n) ↦ (d, n, rw (n, skip_digits) at e)
  ]

  no_prefix : (s : List ℕ) → skip_digits base s ≡ [] → has_hex_prefix base s ≡ false
  unfolding has_hex_prefix first_byte
  no_prefix [] e = refl
  no_prefix (c ∷ []) e = ground arith
  no_prefix (c ∷ x ∷ s) e =
      let (d, n, r) = first_digit c (x ∷ s) e in
      let (k, m, q) = first_digit x s r in let p = digit_plain base x b m in ground (arith, p.2)

  no_skip : (s : List ℕ) → skip_digits base s ≡ [] → skip_sign (skip_space s) ≡ s
  unfolding skip_sign skip_space
  no_skip [] e = refl
  no_skip (c ∷ s) e =
      let (d, n, r) = first_digit c s e in
      let p = digit_plain base c b n in rw (p.0, skip_space) (rw (p.1))

  -- Digits of a base that is read, and nothing else, give their value, or the largest number.
  pub simple_strtoull-plain :
      2 ≤ base
      → (s : List ℕ) → skip_digits base s ≡ []
      → simple_strtoull s base ≡ (min (value base 0 s) uint64_max, [])
  unfolding number_part
  simple_strtoull-plain l s e =
      let part : number_part base (skip_sign (skip_space s)) ≡ (base, s) =
        rw (no_skip s e, number_part, no_prefix s e) (ground (arith, l)) in
      let reads : reads_base base ≡ true = ground (arith, l, b) in
      simple_strtoull-value s base ∙ rw (part, reads, e)
