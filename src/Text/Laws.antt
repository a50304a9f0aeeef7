-- ===== src/Text/Laws.antt =====
-- `strlen`, `strcmp` and `strncmp` against the lists that they compare.
use solace_os.Base.{
  ℕ, zero, suc, ◌+◌, ◌≡◌, ◌≢◌, ◌↔◌, refl, sym, ap, inl, inr, List, [], ◌∷◌, ◌++◌, ◌==◌, arith,
  Bool-cases, ==-eq, ==-ne,
}
use solace_os.Text.{same, difference, first_byte, strlen, strcmp, strncmp, prefix_of}

-- No byte of a C string is 0.
abbrev pub IsCString : List ℕ → Type 0
IsCString [] = Unit {0}
IsCString (c ∷ s) = (c ≢ 0) × IsCString s

pub strlen-append : (s t : List ℕ) → strlen (s ++ t) ≡ strlen s + strlen t
unfolding strlen
strlen-append [] t = omega arith
strlen-append (c ∷ s) t = omega (arith, strlen-append s t)

same_iff : (a b : ℕ) → (difference a b ≡ same) ↔ (a ≡ b)
unfolding difference
same_iff a b = (λ e. ground arith, λ e. ground arith)

-- `strcmp` of two strings without NUL returns 0 exactly if they are equal.
pub strcmp-same_iff : (s t : List ℕ) → IsCString s → IsCString t → (strcmp s t ≡ same) ↔ (s ≡ t)
unfolding strcmp first_byte
strcmp-same_iff [] [] p q = (λ e. refl, λ e. unfold difference in refl)
strcmp-same_iff [] (d ∷ t) p q = (λ e. absurd (q.0 (sym ((same_iff 0 d).0 e))), λ e. cc)
strcmp-same_iff (c ∷ s) [] p q = (λ e. absurd (p.0 ((same_iff c 0).0 e)), λ e. cc)
strcmp-same_iff (c ∷ s) (d ∷ t) p q = elim (Bool-cases (c == d)) [
  | inl h ↦ rw h (
      rw (==-eq c d h) (
        λ e. ap (λ l. d ∷ l) ((strcmp-same_iff s t p.1 q.1).0 e),
        λ e. (strcmp-same_iff s t p.1 q.1).1 (cc),
      ))
  | inr h ↦ rw h (λ e. absurd (==-ne c d h ((same_iff c d).0 e)), λ e. absurd (==-ne c d h (cc)))
]

-- `strncmp` of `n` bytes returns what `strcmp` returns for the first `n` bytes of both strings.
pub strncmp-eq-strcmp :
    (s t : List ℕ) (n : ℕ) → strncmp s t n ≡ strcmp (prefix_of n s) (prefix_of n t)
unfolding strncmp strcmp first_byte prefix_of
strncmp-eq-strcmp s t zero = unfold difference in refl
strncmp-eq-strcmp [] [] (suc n) = refl
strncmp-eq-strcmp [] (d ∷ t) (suc n) = refl
strncmp-eq-strcmp (c ∷ s) [] (suc n) = refl
strncmp-eq-strcmp (c ∷ s) (d ∷ t) (suc n) = rw (strncmp-eq-strcmp s t n)
