-- ===== src/Heap/Snoc.antt =====
-- A node put behind the last one of a chain, and a block behind the last one of a layout.
use solace_os.Base.{
  ℕ, ◌≤◌, ◌≡◌, ◌≢◌, refl, sym, ◌∙◌, inl, inr, true, List, [], ◌∷◌, ◌++◌, arith, ◌==◌, if◌then◌else◌,
  Bool-cases, ==_self, ==_of_ne, ==-eq,
}
use solace_os.Heap.Chain.{has, Distinct, Chain, last_of, has-append, has-ne, has-last_of}
use solace_os.Heap.Links.{head_after}
use solace_os.Heap.Layout.{end_of, Layout}

-- A node put behind the last.
pub Chain-snoc :
    (nxt prv nxt' prv' : ℕ → ℕ) (b : ℕ) (xs : List ℕ) (q p : ℕ)
    → Chain nxt prv q p xs
    → Distinct xs
    → b ≢ 0
    → ((a : ℕ)
        → has a xs ≡ true
        → (nxt' a ≡ (if last_of q xs == a then b else nxt a)) × (prv' a ≡ prv a))
    → nxt' b ≡ 0
    → prv' b ≡ last_of q xs
    → Chain nxt' prv' q (head_after xs b p) (xs ++ b ∷ [])
Chain-snoc nxt prv nxt' prv' b [] q p c d n same f l = (refl, n, l, f)
Chain-snoc nxt prv nxt' prv' b (x ∷ xs) q p c d n same f l =
    let here = same x (rw (==_self x)) in
    (
      c.0,
      c.1,
      here.1 ∙ c.2,
      rw (next xs d here.0) (
          Chain-snoc nxt prv nxt' prv' b xs x (nxt x) c.3 d.1 n (λ a h. same a (ground arith)) f l),
    )
  where
    next :
        (ys : List ℕ)
        → Distinct (x ∷ ys)
        → nxt' x ≡ (if last_of x ys == x then b else nxt x)
        → nxt' x ≡ head_after ys b (nxt x)
    next [] d' e = e ∙ rw (==_self x)
    next (y ∷ ys) d' e =
        e
        ∙ rw (
            ==_of_ne (last_of y ys) x
              (λ g. has-ne x (last_of y ys) (y ∷ ys) d'.0 (has-last_of y ys) (sym g)))

pub Layout-snoc :
    (size : ℕ → ℕ) (b : ℕ) (xs : List ℕ)
    → Layout size xs
    → ((a : ℕ) → has a xs ≡ true → end_of size a ≤ b)
    → Layout size (xs ++ b ∷ [])
Layout-snoc size b [] l h = ((λ a i. cc), tt)
Layout-snoc size b (x ∷ xs) l h = (
  λ a i. elim (Bool-cases (a == b)) [
    | inl e ↦ omega (arith, h x (ground arith), ==-eq a b e)
    | inr e ↦ l.0 a (ground (arith, has-append a xs (b ∷ [])))
  ],
  Layout-snoc size b xs l.1 (λ a i. h a (ground arith)),
)
