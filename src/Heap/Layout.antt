-- ===== src/Heap/Layout.antt =====
-- Blocks in increasing order that do not overlap: each one's header and data end before the next
-- begins.
use solace_os.Base.{
  ℕ, ◌+◌, ◌≤◌, ◌≡◌, ◌≢◌, sym, ◌∙◌, ◌⊎◌, inl, inr, true, false, List, [], ◌∷◌, ◌++◌, arith, ◌==◌,
  Bool-cases, ==-eq,
}
use solace_os.Heap.{heap_header_size}
use solace_os.Heap.Chain.{has, Distinct, has-append, has-here}

abbrev pub Above : ℕ → List ℕ → Type 0
Above lo xs = (a : ℕ) → has a xs ≡ true → lo ≤ a

-- `end_of size x` is the first address behind the block at `x`.
abbrev pub end_of : (ℕ → ℕ) → ℕ → ℕ
end_of size x = x + heap_header_size + size x

abbrev pub Layout : (ℕ → ℕ) → List ℕ → Type 0
Layout size [] = Unit {0}
Layout size (x ∷ xs) = Above (end_of size x) xs × Layout size xs

-- Two blocks share no address.
abbrev pub Apart : (ℕ → ℕ) → ℕ → ℕ → Type 0
Apart size a b = (end_of size a ≤ b) ⊎ (end_of size b ≤ a)

-- Any two blocks of a layout are apart.
pub Layout-Apart :
    (size : ℕ → ℕ) (xs : List ℕ) (a b : ℕ)
    → Layout size xs
    → has a xs ≡ true
    → has b xs ≡ true
    → a ≢ b
    → Apart size a b
Layout-Apart size [] a b l ha hb n = cc
Layout-Apart size (x ∷ xs) a b l ha hb n = elim (Bool-cases (a == x)) [
  | inl e ↦ elim (Bool-cases (b == x)) [
    | inl f ↦ absurd (n (==-eq a x e ∙ sym (==-eq b x f)))
    | inr f ↦ inl (rw (==-eq a x e) (l.0 b (ground arith)))
  ]
  | inr e ↦ elim (Bool-cases (b == x)) [
    | inl f ↦ inr (rw (==-eq b x f) (l.0 a (ground arith)))
    | inr f ↦ Layout-Apart size xs a b l.1 (ground arith) (ground arith) n
  ]
]

pub Layout-Distinct : (size : ℕ → ℕ) (xs : List ℕ) → Layout size xs → Distinct xs
Layout-Distinct size [] l = tt
Layout-Distinct size (x ∷ xs) l = (out, Layout-Distinct size xs l.1)
  where
    out : has x xs ≡ false
    out = elim (Bool-cases (has x xs)) [ inl i ↦ absurd (omega (arith, l.0 x i)) | inr o ↦ o ]

pub Layout-agree :
    (size size' : ℕ → ℕ) (xs : List ℕ)
    → Layout size xs
    → ((a : ℕ) → has a xs ≡ true → size' a ≡ size a)
    → Layout size' xs
Layout-agree size size' [] l same = tt
Layout-agree size size' (x ∷ xs) l same = (
  λ a i. rw (same x (ground arith)) (l.0 a i),
  Layout-agree size size' xs l.1 (λ a i. same a (ground arith)),
)

-- A block cut in two.
pub Layout-split :
    (size size' : ℕ → ℕ) (b c : ℕ) (zs ys : List ℕ)
    → Layout size (ys ++ b ∷ zs)
    → ((a : ℕ) → has a (ys ++ b ∷ zs) ≡ true → b ≢ a → size' a ≡ size a)
    → end_of size' b ≡ c
    → end_of size' c ≡ end_of size b
    → Layout size' (ys ++ b ∷ c ∷ zs)
Layout-split size size' b c zs [] l same e f = (
  λ a i. elim (Bool-cases (a == c)) [
    | inl q ↦ omega (arith, ==-eq a c q, e)
    | inr q ↦ omega (arith, l.0 a (ground arith), e, f)
  ],
  (
    λ a i. omega (arith, l.0 a i, f),
    Layout-agree size size' zs l.1 λ a i. same a (ground arith) (omega (arith, l.0 a i)),
  ),
)
Layout-split size size' b c zs (y ∷ ys) l same e f = (
  λ a i. rw (own) (elim (Bool-cases (a == c)) [
    | inl q ↦ omega (arith, ==-eq a c q, e, below)
    | inr q ↦ l.0 a (ground (arith, has-append a ys (b ∷ zs), has-append a ys (b ∷ c ∷ zs), i))
  ]),
  Layout-split size size' b c zs ys l.1 (λ a i. same a (ground arith)) e f,
)
  where
    below : end_of size y ≤ b
    below = l.0 b (has-here b ys zs)

    own : size' y ≡ size y
    own = same y (ground arith) (omega (arith, below))

-- A block grown over the next.
pub Layout-merge :
    (size size' : ℕ → ℕ) (b c : ℕ) (zs ys : List ℕ)
    → Layout size (ys ++ b ∷ c ∷ zs)
    → ((a : ℕ) → has a (ys ++ b ∷ c ∷ zs) ≡ true → b ≢ a → size' a ≡ size a)
    → size' b ≡ size b + (size c + heap_header_size)
    → Layout size' (ys ++ b ∷ zs)
Layout-merge size size' b c zs [] l same e = (
  λ a i. omega (arith, l.1.0 a i, l.0 c (ground arith), e),
  Layout-agree size size' zs l.1.1
      λ a i. same a (ground arith) (omega (arith, l.0 a (ground arith))),
)
Layout-merge size size' b c zs (y ∷ ys) l same e = (
  λ a i.
      rw (own) (l.0 a (ground (arith, has-append a ys (b ∷ zs), has-append a ys (b ∷ c ∷ zs), i))),
  Layout-merge size size' b c zs ys l.1 (λ a i. same a (ground arith)) e,
)
  where
    own : size' y ≡ size y
    own = same y (ground arith) (omega (arith, l.0 b (has-here b ys (c ∷ zs))))

-- A block ends before the next begins.
pub Layout-next :
    (size : ℕ → ℕ) (b c : ℕ) (zs ys : List ℕ) → Layout size (ys ++ b ∷ c ∷ zs) → end_of size b ≤ c
Layout-next size b c zs [] l = l.0 c (ground arith)
Layout-next size b c zs (y ∷ ys) l = Layout-next size b c zs ys l.1
