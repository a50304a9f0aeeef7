-- ===== src/Heap/Links.antt =====
-- Taking a node out of a doubly linked list, and putting one behind another.
use solace_os.Base.{
  ℕ, ◌≡◌, ◌≢◌, ◌∙◌, true, false, List, [], ◌∷◌, ◌++◌, arith, ◌==◌, if◌then◌else◌, ==_self,
}
use solace_os.Heap.Chain.{
  has, Distinct, Chain, last_of, Chain-agree, has-ne, has-last_of, next_in-Chain, prev_in-Chain,
  head_of-ne, has-middle, head_of-Chain,
}

-- The head of a chain when the node after `ys` has gone.
abbrev pub head_after : List ℕ → ℕ → ℕ → ℕ
head_after [] n p = n
head_after (_ ∷ _) n p = p

module _ (nxt prv nxt' prv' : ℕ → ℕ) (b : ℕ) where
  -- The links that skip `b`, at the nodes of a list.
  abbrev Skips : List ℕ → Type 0
  Skips xs =
      (a : ℕ)
      → has a xs ≡ true
      → (nxt' a ≡ (if prv b == a then nxt b else nxt a))
        × (prv' a ≡ (if nxt b == a then prv b else prv a))

  remove_first :
      (zs : List ℕ) (q : ℕ)
      → Chain nxt prv b (nxt b) zs
      → prv b ≡ q
      → Distinct zs
      → has q zs ≡ false
      → Skips zs
      → Chain nxt' prv' q (nxt b) zs
  remove_first [] q c e d o skip = c
  remove_first (z ∷ zs) q c e d o skip =
      let here = skip z (rw (==_self z)) in
      (
        c.0,
        c.1,
        ground (arith, here.1, c.0, e),
        rw (next here.0) (Chain-agree nxt prv nxt' prv' z (nxt z) zs c.3 rest),
      )
    where
      next : nxt' z ≡ (if prv b == z then nxt b else nxt z) → nxt' z ≡ nxt z
      next h = ground (arith, h, e, o)

      rest : (a : ℕ) → has a zs ≡ true → (nxt' a ≡ nxt a) × (prv' a ≡ prv a)
      rest a h =
          let both = skip a (ground arith) in
          (
            ground (arith, both.0, e, has-ne q a zs (ground arith) h),
            ground (arith, both.1, c.0, has-ne z a zs d.0 h),
          )

  -- A node taken out: its predecessor is linked to its successor, and back.
  pub Chain-remove :
      (zs ys : List ℕ) (q p : ℕ)
      → Chain nxt prv q p (ys ++ b ∷ zs)
      → Distinct (ys ++ b ∷ zs)
      → has q (ys ++ b ∷ zs) ≡ false
      → Skips (ys ++ zs)
      → Chain nxt' prv' q (head_after ys (nxt b) p) (ys ++ zs)
  Chain-remove zs [] q p c d o skip = remove_first zs q c.3 c.2 d.1 (ground arith) skip
  Chain-remove zs (y ∷ ys) q p c d o skip = (
    c.0,
    c.1,
    back,
    rw (forward ys c.3 d) (Chain-remove zs ys y (nxt y) c.3 d.1 d.0 (λ a h. skip a (ground arith))),
  )
    where
      mid : (has y ys ≡ false) × ((y == b) ≡ false) × (has y zs ≡ false)
      mid = has-middle y b ys zs d.0

      back : prv' y ≡ q
      back =
          let both = skip y (rw (==_self y)) in
          ground (
            arith,
            both.1,
            c.2,
            next_in-Chain nxt prv b zs ys y (nxt y) c.3,
            head_of-ne y zs c.1 mid.2,
          )

      forward :
          (ws : List ℕ)
          → Chain nxt prv y (nxt y) (ws ++ b ∷ zs)
          → Distinct (y ∷ (ws ++ b ∷ zs))
          → nxt' y ≡ head_after ws (nxt b) (nxt y)
      forward [] c' d' =
          let both = skip y (rw (==_self y)) in
          ground (arith, both.0, prev_in-Chain nxt prv b zs [] y (nxt y) c')
      forward (w ∷ ws) c' d' =
          let both = skip y (rw (==_self y)) in
          let far =
            has-ne y (last_of w ws) (w ∷ ws) (has-middle y b (w ∷ ws) zs d'.0).0
              (has-last_of w ws) in
          ground (arith, both.0, far, prev_in-Chain nxt prv b zs (w ∷ ws) y (nxt y) c')

module _ (nxt prv nxt' prv' : ℕ → ℕ) (b n : ℕ) where
  -- The links that lead from `b` to `n`, and back from what followed `b`.
  abbrev Detours : List ℕ → Type 0
  Detours xs =
      (a : ℕ)
      → has a xs ≡ true
      → (nxt' a ≡ (if b == a then n else nxt a)) × (prv' a ≡ (if nxt b == a then n else prv a))

  insert_first :
      (zs : List ℕ)
      → Chain nxt prv b (nxt b) zs
      → Distinct (b ∷ zs)
      → Detours (b ∷ zs)
      → Chain nxt' prv' n (nxt b) zs
  insert_first [] c d new = c
  insert_first (z ∷ zs) c d new =
      let here = new z (ground arith) in
      (
        c.0,
        c.1,
        ground (arith, here.1, c.0),
        rw (next here.0) (Chain-agree nxt prv nxt' prv' z (nxt z) zs c.3 rest),
      )
    where
      next : nxt' z ≡ (if b == z then n else nxt z) → nxt' z ≡ nxt z
      next h = ground (arith, h, d.0)

      rest : (a : ℕ) → has a zs ≡ true → (nxt' a ≡ nxt a) × (prv' a ≡ prv a)
      rest a h =
          let both = new a (ground arith) in
          (
            ground (arith, both.0, has-ne b a zs (ground arith) h),
            ground (arith, both.1, c.0, has-ne z a zs d.1.0 h),
          )

  -- The node `n` put behind `b`.
  pub Chain-insert :
      (zs ys : List ℕ) (q p : ℕ)
      → Chain nxt prv q p (ys ++ b ∷ zs)
      → Distinct (ys ++ b ∷ zs)
      → n ≢ 0
      → Detours (ys ++ b ∷ zs)
      → nxt' n ≡ nxt b
      → prv' n ≡ b
      → Chain nxt' prv' q p (ys ++ b ∷ n ∷ zs)
  Chain-insert zs [] q p c d o new fn fp =
      let here = new b (ground arith) in
      (
        c.0,
        c.1,
        ground
            (arith, here.1, c.2, head_of-Chain nxt prv b (nxt b) zs c.3, head_of-ne b zs c.1 d.0),
        (here.0 ∙ ground arith, o, fp, rw fn (insert_first zs c.3 d new)),
      )
  Chain-insert zs (y ∷ ys) q p c d o new fn fp = (
    c.0,
    c.1,
    back,
    rw next (Chain-insert zs ys y (nxt y) c.3 d.1 o (λ a h. new a (ground arith)) fn fp),
  )
    where
      mid : (has y ys ≡ false) × ((y == b) ≡ false) × (has y zs ≡ false)
      mid = has-middle y b ys zs d.0

      here : (nxt' y ≡ (if b == y then n else nxt y)) × (prv' y ≡ (if nxt b == y then n else prv y))
      here = new y (ground arith)

      next : nxt' y ≡ nxt y
      next = ground (arith, here.0, mid.1)

      back : prv' y ≡ q
      back = ground (
        arith,
        here.1,
        c.2,
        next_in-Chain nxt prv b zs ys y (nxt y) c.3,
        head_of-ne y zs c.1 mid.2,
      )
