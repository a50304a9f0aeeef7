-- ===== src/Shell/Messages/Rows.antt =====
-- The loop over the rows of `memdump`: when it ends.
use solace_os.Base.{
  ℕ, zero, suc, ◌+◌, ◌*◌, ◌/◌, ◌%◌, ◌≤◌, ◌<◌, ◌≡◌, ◌↔◌, refl, sym, ap, ◌∙◌, inl, inr, true, false,
  Option, none, some, List, [], ◌++◌, ltb, leb, add64, u64_mod, arith, Bool-cases,
}
use solace_os.Console.{Call}
use solace_os.Shell.Messages.{row, rows}

module _ (length addr : ℕ) (ptr : ℕ → ℕ) where
  pub rows-more :
      (fuel i : ℕ) (calls : List Call)
      → i < length
      → rows fuel (add64 i 16) length addr ptr ≡ some calls
      → rows (suc fuel) i length addr ptr ≡ some (row i length addr ptr ++ calls)
  unfolding rows
  rows-more fuel i calls l e =
      let t : ltb i length ≡ true = ground (arith, l) in rw (rows, t, e) refl

  rows-none :
      (fuel i : ℕ)
      → i < length
      → rows fuel (add64 i 16) length addr ptr ≡ none
      → rows (suc fuel) i length addr ptr ≡ none
  unfolding rows
  rows-none fuel i l e = let t : ltb i length ≡ true = ground (arith, l) in rw (rows, t, e) refl

  pub rows-end : (fuel i : ℕ) → length ≤ i → rows (suc fuel) i length addr ptr ≡ some []
  unfolding rows
  rows-end fuel i l = let t : ltb i length ≡ false = ground (arith, l) in rw t refl

  pub no-wrap : (i : ℕ) → i + 16 < u64_mod → add64 i 16 ≡ i + 16
  no-wrap i l = omega (arith, l)

  -- A row is 16 bytes: the loop ends as long as the counter does not wrap.
  rows-ends :
      (n i : ℕ)
      → length + 16 ≤ u64_mod
      → length ≤ i + 16 * n
      → (calls : List Call) × (rows (suc n) i length addr ptr ≡ some calls)
  rows-ends zero i fits l = ([], rows-end zero i (omega (arith, l)))
  rows-ends (suc n) i fits l = elim (Bool-cases (ltb i length)) [
    | inr e ↦ ([], rows-end (suc n) i (ground (arith, e)))
    | inl e ↦
        let p : i < length = ground (arith, e) in
        let (calls, f) = rows-ends n (i + 16) fits (omega (arith, l)) in
        (
          row i length addr ptr ++ calls,
          rows-more (suc n) i calls p
              (ap (λ k. rows (suc n) k length addr ptr) (no-wrap i (omega (arith, fits, p))) ∙ f),
        )
  ]

  -- For a length with less than 16 to 2 ^ 64 the counter wraps, and the loop goes on for ever.
  rows-endless :
      u64_mod < length + 16
      → length < u64_mod
      → (fuel i : ℕ) → i % 16 ≡ 0
      → i < u64_mod
      → rows fuel i length addr ptr ≡ none
  rows-endless big small zero i a b = unfold rows in refl
  rows-endless big small (suc fuel) i a b =
      rows-none fuel i (omega (arith, big, a, b))
        (rows-endless big small fuel (add64 i 16) (omega (arith, a, b)) (omega (arith, a, b)))

  -- The loop over the rows of `memdump` ends exactly if the length is at most 2 ^ 64 - 16; for a larger one the counter wraps, and it never does.
  pub rows-ends_iff :
      length < u64_mod
      → ((fuel : ℕ) × (calls : List Call) × (rows fuel 0 length addr ptr ≡ some calls))
        ↔ (length + 16 ≤ u64_mod)
  rows-ends_iff small = (
    λ r. elim (Bool-cases (leb (length + 16) u64_mod)) [
      | inl e ↦ ground (arith, e)
      | inr e ↦
          let (fuel, calls, f) = r in
          let g = rows-endless (ground (arith, e)) small fuel 0 (omega arith) (omega arith) in
          let bad : ◌≡◌ {A = Option (List Call)} none (some calls) = sym g ∙ f in cc
    ],
    λ fits.
        let (calls, e) = rows-ends (length / 16 + 1) 0 fits (omega arith) in
        (suc (length / 16 + 1), calls, e),
  )
