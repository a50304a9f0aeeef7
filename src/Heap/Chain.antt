-- ===== src/Heap/Chain.antt =====
-- Doubly linked lists that end in NULL, given by the two pointer fields of their nodes. The heap's
-- physical list and its free list are both of this form.
use solace_os.Base.{
  ℕ, ◌≡◌, ◌≢◌, refl, sym, ap, ◌∙◌, Bool, true, false, ◌||◌, List, [], ◌∷◌, ◌++◌, arith, ◌==◌,
  if◌then◌else◌, ==_self,
}

abbrev pub has : ℕ → List ℕ → Bool
has a [] = false
has a (x ∷ xs) = (a == x) || has a xs

abbrev pub Distinct : List ℕ → Type 0
Distinct [] = Unit {0}
Distinct (x ∷ xs) = (has x xs ≡ false) × Distinct xs

-- From the pointer `p`, with `q` as the node before, the links lead through `xs` to NULL.
abbrev pub Chain : (ℕ → ℕ) → (ℕ → ℕ) → ℕ → ℕ → List ℕ → Type 0
Chain nxt prv q p [] = p ≡ 0
Chain nxt prv q p (x ∷ xs) = (p ≡ x) × (x ≢ 0) × (prv x ≡ q) × Chain nxt prv x (nxt x) xs

-- The last node, or `q` if there is none.
abbrev pub last_of : ℕ → List ℕ → ℕ
last_of q [] = q
last_of q (x ∷ xs) = last_of x xs

-- The first node, or NULL.
abbrev pub head_of : List ℕ → ℕ
head_of [] = 0
head_of (x ∷ xs) = x

pub has-append : (a : ℕ) (xs ys : List ℕ) → has a (xs ++ ys) ≡ (has a xs || has a ys)
has-append a [] ys = refl
has-append a (x ∷ xs) ys = ground (arith, has-append a xs ys)

pub has-here : (b : ℕ) (ys zs : List ℕ) → has b (ys ++ b ∷ zs) ≡ true
has-here b ys zs = ground (arith, has-append b ys (b ∷ zs))

pub head_of-Chain :
    (nxt prv : ℕ → ℕ) (q p : ℕ) (xs : List ℕ) → Chain nxt prv q p xs → p ≡ head_of xs
head_of-Chain nxt prv q p [] c = c
head_of-Chain nxt prv q p (x ∷ xs) c = c.0

-- A chain depends on the links of its own nodes only.
pub Chain-agree :
    (nxt prv nxt' prv' : ℕ → ℕ) (q p : ℕ) (xs : List ℕ)
    → Chain nxt prv q p xs
    → ((a : ℕ) → has a xs ≡ true → (nxt' a ≡ nxt a) × (prv' a ≡ prv a))
    → Chain nxt' prv' q p xs
Chain-agree nxt prv nxt' prv' q p [] c same = c
Chain-agree nxt prv nxt' prv' q p (x ∷ xs) c same =
    let here = same x (rw (==_self x)) in
    (
      c.0,
      c.1,
      here.1 ∙ c.2,
      rw here.0 (Chain-agree nxt prv nxt' prv' x (nxt x) xs c.3 (λ a h. same a (ground arith))),
    )

pub has-ne : (x a : ℕ) (xs : List ℕ) → has x xs ≡ false → has a xs ≡ true → x ≢ a
has-ne x a xs out ins e = let bad : false ≡ true = sym out ∙ ap (λ k. has k xs) e ∙ ins in cc

-- A node put before the first.
pub Chain-cons :
    (nxt prv nxt' prv' : ℕ → ℕ) (p b : ℕ) (xs : List ℕ)
    → Chain nxt prv 0 p xs
    → b ≢ 0
    → Distinct (b ∷ xs)
    → ((a : ℕ) → nxt' a ≡ (if b == a then p else nxt a))
    → ((a : ℕ) → has a xs ≡ true → prv' a ≡ (if p == a then b else prv a))
    → prv' b ≡ 0
    → Chain nxt' prv' 0 b (b ∷ xs)
Chain-cons nxt prv nxt' prv' p b [] c n d en ep eb = (refl, n, eb, rw (en b, ==_self b) c)
Chain-cons nxt prv nxt' prv' p b (x ∷ xs) c n d en ep eb = (
  refl,
  n,
  eb,
  rw (en b, ==_self b)
      (
        c.0,
        c.1,
        ep x (rw (==_self x)) ∙ rw (c.0, ==_self x),
        rw next (Chain-agree nxt prv nxt' prv' x (nxt x) xs c.3 rest),
      ),
)
  where
    next : nxt' x ≡ nxt x
    next = ground (arith, en x, d.0)

    rest : (a : ℕ) → has a xs ≡ true → (nxt' a ≡ nxt a) × (prv' a ≡ prv a)
    rest a h = (ground (arith, en a, h, d.0), ground (arith, ep a, h, c.0, has-ne x a xs d.1.0 h))

pub has-last_of : (x : ℕ) (xs : List ℕ) → has (last_of x xs) (x ∷ xs) ≡ true
has-last_of x [] = ground arith
has-last_of x (y ∷ xs) = ground (arith, has-last_of y xs)

module _ (nxt prv : ℕ → ℕ) (b : ℕ) (zs : List ℕ) where
  -- Behind a node the chain goes on with what follows it, and before it lies what precedes it.
  pub next_in-Chain :
      (ys : List ℕ) (q p : ℕ) → Chain nxt prv q p (ys ++ b ∷ zs) → nxt b ≡ head_of zs
  next_in-Chain [] q p c = head_of-Chain nxt prv b (nxt b) zs c.3
  next_in-Chain (y ∷ ys) q p c = next_in-Chain ys y (nxt y) c.3

  pub prev_in-Chain :
      (ys : List ℕ) (q p : ℕ) → Chain nxt prv q p (ys ++ b ∷ zs) → prv b ≡ last_of q ys
  prev_in-Chain [] q p c = c.2
  prev_in-Chain (y ∷ ys) q p c = prev_in-Chain ys y (nxt y) c.3

  pub ne_null-Chain : (ys : List ℕ) (q p : ℕ) → Chain nxt prv q p (ys ++ b ∷ zs) → b ≢ 0
  ne_null-Chain [] q p c = c.1
  ne_null-Chain (y ∷ ys) q p c = ne_null-Chain ys y (nxt y) c.3

-- A node that is not 0 and not in a list is not the list's first.
pub head_of-ne : (y : ℕ) (zs : List ℕ) → y ≢ 0 → has y zs ≡ false → head_of zs ≢ y
head_of-ne y [] n d = λ e. n (sym e)
head_of-ne y (z ∷ zs) n d = ground arith

pub has-middle :
    (a b : ℕ) (ys zs : List ℕ)
    → has a (ys ++ b ∷ zs) ≡ false
    → (has a ys ≡ false) × ((a == b) ≡ false) × (has a zs ≡ false)
has-middle a b ys zs h =
    let e = has-append a ys (b ∷ zs) in (ground arith, ground arith, ground arith)

-- Taking a node out of a list without repetitions.
pub Distinct-middle :
    (b : ℕ) (ys zs : List ℕ)
    → Distinct (ys ++ b ∷ zs)
    → (has b ys ≡ false) × (has b zs ≡ false) × Distinct (ys ++ zs)
Distinct-middle b [] zs d = (refl, d.0, d.1)
Distinct-middle b (y ∷ ys) zs d =
    let (l, r, t) = Distinct-middle b ys zs d.1 in
    let (u, v, w) = has-middle y b ys zs d.0 in
    (ground (arith, l, v), r, (rw (has-append y ys zs) (ground (arith, u, w)), t))

-- What precedes a node that is not NULL and not in `ys` is not that node.
pub last_of-ne : (b : ℕ) (ys : List ℕ) → b ≢ 0 → has b ys ≡ false → last_of 0 ys ≢ b
last_of-ne b [] n o = λ e. n (sym e)
last_of-ne b (y ∷ ys) n o = λ e. has-ne b (last_of y ys) (y ∷ ys) o (has-last_of y ys) (sym e)

pub last_of-append : (q b : ℕ) (ys zs : List ℕ) → last_of q (ys ++ b ∷ zs) ≡ last_of b zs
last_of-append q b [] zs = refl
last_of-append q b (y ∷ ys) zs = last_of-append y b ys zs
