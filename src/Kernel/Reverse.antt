-- ===== src/Kernel/Reverse.antt =====
-- The loop of `boot_debug_copy` that reverses its digits.
use solace_os.Base.{
  ℕ, zero, suc, ◌+◌, ◌-◌, ◌*◌, ◌≤◌, ◌<◌, ◌≡◌, ◌≢◌, refl, sym, ap, ◌∙◌, inl, inr, some, List, ◌∷◌,
  ◌==◌, if◌then◌else◌, arith, Bool-cases, ==_of_ne, ==_self, ==-eq, ==-ne, ◌⊎◌,
}
use solace_os.Text.Buffer.{c_string}
use solace_os.Kernel.{swap, reverse_loop}
use solace_os.Kernel.Digits.{backward}

module _ (i : ℕ) where
  swap_lem :
      (j k : ℕ) (s : ℕ → ℕ) (a : ℕ)
      → swap j k s a ≡ (if k == a then s j else if j == a then s k else s a)
  unfolding swap
  swap_lem j k s a = refl

  swap-others : (j k : ℕ) (s : ℕ → ℕ) (a : ℕ) → k ≢ a → j ≢ a → swap j k s a ≡ s a
  swap-others j k s a p q = swap_lem j k s a ∙ rw (==_of_ne k a p, ==_of_ne j a q)

  swap-left : (j k : ℕ) (s : ℕ → ℕ) → k ≢ j → swap j k s j ≡ s k
  swap-left j k s p = swap_lem j k s j ∙ rw (==_of_ne k j p, ==_self j)

  swap-right : (j k : ℕ) (s : ℕ → ℕ) → swap j k s k ≡ s j
  swap-right j k s = swap_lem j k s k ∙ rw (==_self k)

  -- The rounds from `j` on leave the bytes before `j` and from `i - j` on.
  pub reverse_loop-outside :
      (n j : ℕ) (s : ℕ → ℕ) (a : ℕ)
      → 2 * (j + n) ≤ i
      → (a < j) ⊎ (i ≤ a + j)
      → reverse_loop n j i s a ≡ s a
  unfolding reverse_loop
  reverse_loop-outside zero j s a l o = refl
  reverse_loop-outside (suc n) j s a l o =
      reverse_loop-outside n (j + 1) (swap j (i - j - 1) s) a (omega (arith, l)) (ground (arith, o))
      ∙ swap-others j (i - j - 1) s a (λ e. omega (arith, e, o, l)) (λ e. omega (arith, e, o, l))

  -- They reverse the bytes between.
  pub reverse_loop-inside :
      (n j : ℕ) (s : ℕ → ℕ) (a : ℕ)
      → 2 * (j + n) ≤ i
      → i ≤ 2 * (j + n) + 1
      → j ≤ a
      → a + j < i
      → reverse_loop n j i s a ≡ s (i - 1 - a)
  unfolding reverse_loop
  reverse_loop-inside zero j s a l h p q = ap s (omega (arith, l, h, p, q))
  reverse_loop-inside (suc n) j s a l h p q = elim (Bool-cases (a == j)) [
    | inl e ↦ left (==-eq a j e)
    | inr e ↦ elim (Bool-cases (a + j + 1 == i)) [
      | inl f ↦ right (==-eq (a + j + 1) i f)
      | inr f ↦
          reverse_loop-inside n (j + 1) (swap j (i - j - 1) s) a (omega (arith, l))
            (omega (arith, h)) (omega (arith, p, ==-ne a j e))
            (omega (arith, q, ==-ne (a + j + 1) i f))
          ∙ swap-others j (i - j - 1) s (i - 1 - a) (λ g. omega (arith, g, p, q, ==-ne a j e))
              (λ g. omega (arith, g, p, q, ==-ne (a + j + 1) i f))
    ]
  ]
    where
      out : (a < j + 1) ⊎ (i ≤ a + (j + 1)) → reverse_loop (suc n) j i s a ≡ swap j (i - j - 1) s a
      out o = reverse_loop-outside n (j + 1) (swap j (i - j - 1) s) a (omega (arith, l)) o

      left : a ≡ j → reverse_loop (suc n) j i s a ≡ s (i - 1 - a)
      left e =
          out (inl (omega (arith, e)))
          ∙ ap (swap j (i - j - 1) s) e
          ∙ swap-left j (i - j - 1) s (λ g. omega (arith, g, l))
          ∙ ap s (omega (arith, e))

      right : a + j + 1 ≡ i → reverse_loop (suc n) j i s a ≡ s (i - 1 - a)
      right e =
          out (inr (omega (arith, e)))
          ∙ ap (swap j (i - j - 1) s) (omega (arith, e))
          ∙ swap-right j (i - j - 1) s
          ∙ ap s (omega (arith, e))

c_string-step :
    (n a : ℕ) (t : ℕ → ℕ) (u : List ℕ)
    → t a ≢ 0
    → c_string n (a + 1) t ≡ some u
    → c_string (suc n) a t ≡ some (t a ∷ u)
unfolding c_string
c_string-step n a t u o e = rw (==_of_ne (t a) 0 o, e)

-- A string that is the first `j` bytes of an array backwards is read as such.
pub c_string-backward :
    (m n a j : ℕ) (s t : ℕ → ℕ)
    → a + m ≡ j
    → m < n
    → ((b : ℕ) → b < j → t b ≡ s (j - 1 - b))
    → t j ≡ 0
    → ((b : ℕ) → b < j → s b ≢ 0)
    → c_string n a t ≡ some (backward m s)
unfolding c_string
c_string-backward m zero a j s t e l r z o = absurd (omega (arith, l))
c_string-backward zero (suc n) a j s t e l r z o =
    let at : t a ≡ 0 = ap t (omega (arith, e)) ∙ z in rw at
c_string-backward (suc m) (suc n) a j s t e l r z o =
    let at : t a ≡ s m = r a (omega (arith, e)) ∙ ap s (omega (arith, e)) in
    c_string-step n a t (backward m s) (λ g. o m (omega (arith, e)) (sym at ∙ g))
      (c_string-backward m n (a + 1) j s t (omega (arith, e)) (omega (arith, l)) r z o)
    ∙ ap (λ c. some (c ∷ backward m s)) at
