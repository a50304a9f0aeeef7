-- ===== src/Heap/FirstFit.antt =====
-- The first-fit search of `kmalloc`.
use solace_os.Base.{
  ℕ, zero, suc, ◌≤◌, ◌<◌, ◌≡◌, ◌≢◌, refl, sym, ap, subst, inl, inr, true, false, List, [], ◌∷◌,
  ◌++◌, arith, some, leb, length, ◌==◌, if◌then◌else◌, Bool-cases, ==-eq, ==_of_ne,
}
use solace_os.Heap.{Kheap, find_fit}
use solace_os.Heap.Chain.{has, Chain}
use solace_os.Heap.FreeList.{next_free_of, prev_free_of}
use solace_os.Heap.Valid.{size_of}

-- The first block of the list with at least `n` bytes, or 0.
unfoldable pub first_fit : (ℕ → ℕ) → ℕ → List ℕ → ℕ
first_fit size n [] = 0
first_fit size n (x ∷ xs) = if leb n (size x) then x else first_fit size n xs

-- From a pointer that leads through the blocks of a list to NULL, the search of `kmalloc` ends within
-- one round for each block and one more, and finds the first block of the list with at least `n`
-- bytes, or NULL if there is none.
pub find_fit-first_fit :
    (h : Kheap) (n fuel : ℕ) (q p : ℕ) (xs : List ℕ)
    → Chain (next_free_of h) (prev_free_of h) q p xs
    → length xs < fuel
    → find_fit fuel n p h.blocks ≡ some (first_fit (size_of h) n xs)
unfolding find_fit first_fit
find_fit-first_fit h n zero q p xs c l = absurd (omega arith)
find_fit-first_fit h n (suc fuel) q p [] c l = rw (c)
find_fit-first_fit h n (suc fuel) q p (x ∷ xs) c l =
    rw
      (c.0, ==_of_ne x 0 c.1, find_fit-first_fit h n fuel x (next_free_of h x) xs c.3 (omega arith))
      (ground arith)

-- Where a node stands in a list.
pub mem_split :
    (b : ℕ) (xs : List ℕ) → has b xs ≡ true → (ys : List ℕ) × (zs : List ℕ) × (xs ≡ ys ++ b ∷ zs)
mem_split b [] i = cc
mem_split b (x ∷ xs) i = elim (Bool-cases (b == x)) [
  | inl e ↦ ([], xs, rw (==-eq b x e))
  | inr d ↦ let (ys, zs, e) = mem_split b xs (ground arith) in (x ∷ ys, zs, ap (λ l. x ∷ l) e)
]

module _ (size : ℕ → ℕ) (n x : ℕ) (xs : List ℕ) where
  pub first_fit-hit : leb n (size x) ≡ true → first_fit size n (x ∷ xs) ≡ x
  unfolding first_fit
  first_fit-hit e = rw e

  pub first_fit-miss : leb n (size x) ≡ false → first_fit size n (x ∷ xs) ≡ first_fit size n xs
  unfolding first_fit
  first_fit-miss e = rw e

-- The first fit, if there is one, is on the list, and large enough.
pub first_fit-fits :
    (size : ℕ → ℕ) (n : ℕ) (xs : List ℕ)
    → first_fit size n xs ≢ 0
    → (has (first_fit size n xs) xs ≡ true) × (n ≤ size (first_fit size n xs))
first_fit-fits size n [] d = absurd (d (unfold first_fit in refl))
first_fit-fits size n (x ∷ xs) d = elim (Bool-cases (leb n (size x))) [
  | inl e ↦
      subst (λ f. (has f (x ∷ xs) ≡ true) × (n ≤ size f)) (sym (first_fit-hit size n x xs e))
        (ground arith, ground arith)
  | inr e ↦
      let q = first_fit-miss size n x xs e in
      let (i, l) = first_fit-fits size n xs (rw q at d) in
      subst (λ f. (has f (x ∷ xs) ≡ true) × (n ≤ size f)) (sym q) (ground (arith, i), l)
]
