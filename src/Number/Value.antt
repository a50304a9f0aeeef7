-- ===== src/Number/Value.antt =====
-- `simple_strtoull` reads the value of the leading digits, capped at the largest 64-bit number.
use native.Mathlib.Nat.{mod-eq_of_lt, div-add-mod', mod-lt}
use Prim.Native.Nat.{min}
use solace_os.Base.{
  ℕ, ◌+◌, ◌*◌, ◌/◌, ◌%◌, ◌≤◌, ◌<◌, ◌≡◌, sym, ap, ◌∙◌, inl, inr, Bool, true, false, ◌&&◌, ◌||◌, none,
  some, List, [], ◌∷◌, ◌==◌, ltb, leb, if◌then◌else◌, uint64_max, u64_mod, arith, Bool-cases,
  Option-cases,
}
use solace_os.Text.{advance}
use solace_os.Number.{
  digit_in, skip_digits, digits_loop, skip_space, skip_sign, has_hex_prefix, simple_strtoull,
}

-- The number whose digits, in the base, are those that begin the string, behind the number `n`.
unfoldable pub value : ℕ → ℕ → List ℕ → ℕ
value base n [] = n
value base n (c ∷ s) = elim (digit_in base c) [ none ↦ n | some d ↦ value base (n * base + d) s ]

pub digit_in-lt : (base c : ℕ) {d : ℕ} → digit_in base c ≡ some d → d < base
unfolding digit_in
digit_in-lt base c e = ground arith

module _ (base n c : ℕ) (s : List ℕ) where
  value-stop : digit_in base c ≡ none → value base n (c ∷ s) ≡ n
  unfolding value
  value-stop e = rw (e, value)

  pub value-more :
      {d : ℕ} → digit_in base c ≡ some d → value base n (c ∷ s) ≡ value base (n * base + d) s
  unfolding value
  value-more e = rw (e, value)

  skip-stop : digit_in base c ≡ none → skip_digits base (c ∷ s) ≡ c ∷ s
  unfolding skip_digits
  skip-stop e = rw (e, skip_digits)

  pub skip-more : {d : ℕ} → digit_in base c ≡ some d → skip_digits base (c ∷ s) ≡ skip_digits base s
  unfolding skip_digits
  skip-more e = rw (e, skip_digits)

  abbrev too_large : ℕ → Bool
  too_large d = ltb (uint64_max / base) n || ((n == uint64_max / base) && ltb (uint64_max % base) d)

  loop-stop : digit_in base c ≡ none → digits_loop base n (c ∷ s) ≡ (n, c ∷ s)
  unfolding digits_loop
  loop-stop e = rw (e, digits_loop)

  loop-over :
      {d : ℕ}
      → digit_in base c ≡ some d
      → too_large d ≡ true
      → digits_loop base n (c ∷ s) ≡ (uint64_max, skip_digits base s)
  unfolding digits_loop
  loop-over e o = rw (e, digits_loop) (rw (o, digits_loop))

  loop-more :
      {d : ℕ}
      → digit_in base c ≡ some d
      → too_large d ≡ false
      → digits_loop base n (c ∷ s) ≡ digits_loop base ((n * base + d) % u64_mod) s
  unfolding digits_loop
  loop-more e o = rw (e, digits_loop) (rw (o, digits_loop))

mul_mono : (a b c : ℕ) → a ≤ b → a * c ≤ b * c
mul_mono a b c h = grind arith

module _ (base : ℕ) (low : 2 ≤ base) where
  value-ge : (n : ℕ) (s : List ℕ) → n ≤ value base n s
  value-ge n [] = unfold value in omega arith
  value-ge n (c ∷ s) = elim (Option-cases (digit_in base c)) [
    | inl e ↦ rw (value-stop base n c s e) (omega arith)
    | inr (d, e) ↦
        rw (value-more base n c s e)
          (omega (arith, value-ge (n * base + d) s, mul_mono 1 base n (omega arith)))
  ]

  -- The test before a digit is added tells exactly whether the result would not fit.
  overflow_test :
      (n c d : ℕ) (s : List ℕ) → d < base → too_large base n c s d ≡ ltb uint64_max (n * base + d)
  overflow_test n c d s h = ground (
    arith,
    div-add-mod' uint64_max base,
    mod-lt uint64_max {m = base} (omega arith),
    mul_mono (n + 1) (uint64_max / base) base,
    mul_mono (uint64_max / base + 1) n base,
  )

  beyond :
      (n c d : ℕ) (s : List ℕ)
      → d < base
      → too_large base n c s d ≡ true
      → uint64_max < n * base + d
  beyond n c d s h o =
      let e : ltb uint64_max (n * base + d) ≡ true = sym (overflow_test n c d s h) ∙ o in
      ground (arith, e)

  fits :
      (n c d : ℕ) (s : List ℕ) → d < base → too_large base n c s d ≡ false → n * base + d < u64_mod
  fits n c d s h o =
      let e : ltb uint64_max (n * base + d) ≡ false = sym (overflow_test n c d s h) ∙ o in
      ground (arith, e)

  fits' :
      (n c d : ℕ) (s : List ℕ)
      → d < base
      → too_large base n c s d ≡ false
      → n * base + d ≤ uint64_max
  fits' n c d s h o = omega (arith, fits n c d s h o)

  -- In a base of at least 2 and from any value of 64 bits, the loop reads on to the value of all the
  -- digits that follow, or to the largest 64-bit number if that does not fit, and stops behind the
  -- digits.
  pub digits_loop-value :
      (n : ℕ) (s : List ℕ)
      → n ≤ uint64_max
      → digits_loop base n s ≡ (min (value base n s) uint64_max, skip_digits base s)
  digits_loop-value n [] h = unfold digits_loop value skip_digits in ap (λ k. (k, [])) (omega arith)
  digits_loop-value n (c ∷ s) h = elim (Option-cases (digit_in base c)) [
    | inl e ↦
        rw (loop-stop base n c s e, value-stop base n c s e, skip-stop base n c s e)
          (ap (λ k. (k, c ∷ s)) (omega arith))
    | inr (d, e) ↦ elim (Bool-cases (too_large base n c s d)) [
      | inl o ↦
          rw (loop-over base n c s e o, value-more base n c s e, skip-more base n c s e)
            (ap (λ k. (k, skip_digits base s))
              (omega (arith, beyond n c d s (digit_in-lt base c e) o, value-ge (n * base + d) s)))
      | inr o ↦
          rw
            (
              loop-more base n c s e o,
              value-more base n c s e,
              skip-more base n c s e,
              mod-eq_of_lt (fits n c d s (digit_in-lt base c e) o),
            )
            (digits_loop-value (n * base + d) s (fits' n c d s (digit_in-lt base c e) o))
    ]
  ]

-- Whether a base is one that the function reads numbers in.
abbrev pub reads_base : ℕ → Bool
reads_base b = leb 2 b && leb b 16

-- The base that is used for the string behind the sign, and the digits.
unfoldable pub number_part : ℕ → List ℕ → ℕ × List ℕ
number_part base s =
    if has_hex_prefix base s then (16, advance 2 s) else (if base == 0 then 10 else base, s)

read_in :
    (b : ℕ) (nptr s : List ℕ)
    → (if ltb b 2 || ltb 16 b then (0, nptr) else digits_loop b 0 s)
      ≡ (if reads_base b then (min (value b 0 s) uint64_max, skip_digits b s) else (0, nptr))
read_in b nptr s = elim (Bool-cases (reads_base b)) [
  | inl h ↦
      let e : (ltb b 2 || ltb 16 b) ≡ false = ground (arith, h) in
      rw (h, e) (digits_loop-value b (ground (arith, h)) 0 s (omega arith))
  | inr h ↦ let e : (ltb b 2 || ltb 16 b) ≡ true = ground (arith, h) in rw (h, e)
]

-- For every string and base, `simple_strtoull` skips white space and a sign, takes the base from a prefix `0x` where the caller
-- leaves it open or asks for 16, and returns the value of the digits that follow, or the largest
-- 64-bit number if that does not fit. `*endptr` is behind the last digit. For a base that it does not
-- read it returns 0, and `*endptr` is the start.
pub simple_strtoull-value :
    (nptr : List ℕ) (base : ℕ)
    → let (b, s) = number_part base (skip_sign (skip_space nptr)) in
      simple_strtoull nptr base
      ≡ (if reads_base b then (min (value b 0 s) uint64_max, skip_digits b s) else (0, nptr))
unfolding simple_strtoull number_part
simple_strtoull-value nptr base =
    elim (Bool-cases (has_hex_prefix base (skip_sign (skip_space nptr)))) [
      | inl h ↦ rw h (
          digits_loop-value 16 (omega arith) 0 (advance 2 (skip_sign (skip_space nptr)))
            (omega arith))
      | inr h ↦ rw h (read_in (if base == 0 then 10 else base) nptr (skip_sign (skip_space nptr)))
    ]
