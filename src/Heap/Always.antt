-- ===== src/Heap/Always.antt =====
-- `kmalloc` on every branch.
use solace_os.Base.{
  ℕ, zero, suc, ◌+◌, ◌*◌, ◌-◌, ◌≤◌, ◌<◌, ◌≡◌, ◌≢◌, refl, sym, ap, ◌∙◌, subst, inl, inr, Bool, true,
  false, Option, none, some, List, [], ◌∷◌, length, arith, leb, ◌==◌, add64, Bool-cases,
  Option-cases, ==-eq, ==-ne, ==_of_ne,
}
use solace_os.Memory.{in_range}
use solace_os.Frames.{page_size}
use solace_os.Heap.{
  Kheap, heap_header_size, align, find_fit, pages_for, expand_heap, place, kmalloc,
}
use solace_os.Heap.Chain.{has, Chain}
use solace_os.Heap.FreeList.{next_free_of, prev_free_of}
use solace_os.Heap.Valid.{size_of, is_free_at}
use solace_os.Heap.FirstFit.{
  first_fit, first_fit-fits, first_fit-hit, first_fit-miss, find_fit-first_fit,
}
use solace_os.Heap.Malloc.{kmalloc_hit}
use solace_os.Heap.Retry.{retry, kmalloc-retry}
use solace_os.Heap.Kept.{kmalloc_null, kmalloc_stuck}
use solace_os.Heap.Place.{Steady, place-Steady}
use solace_os.Heap.Total.{Bigger, expand_heap-Bigger}

-- With whatever fuel, a search that ends has found the first fit.
find_fit-found :
    (h : Kheap) (n fuel q p : ℕ) (xs : List ℕ) (r : ℕ)
    → Chain (next_free_of h) (prev_free_of h) q p xs
    → find_fit fuel n p h.blocks ≡ some r
    → r ≡ first_fit (size_of h) n xs
unfolding find_fit first_fit
find_fit-found h n zero q p xs r c e = cc
find_fit-found h n (suc fuel) q p [] r c e = ground (arith, c, e)
find_fit-found h n (suc fuel) q p (x ∷ xs) r c e =
    let ih = find_fit-found h n fuel x (next_free_of h x) xs r c.3 in
    let at : find_fit (suc fuel) n x h.blocks ≡ some r =
      ap (λ k. find_fit (suc fuel) n k h.blocks) (sym c.0) ∙ e in
    elim (Bool-cases (leb n (size_of h x))) [
      | inl l ↦
          let y : ◌≡◌ {A = Option ℕ} (some x) (some r) = rw (find_fit, ==_of_ne x 0 c.1, l) at at in
          rw l (ground (arith, y))
      | inr l ↦
          let y : find_fit fuel n (next_free_of h x) h.blocks ≡ some r =
            rw (find_fit, ==_of_ne x 0 c.1, l) at at in
          rw l (ih y)
    ]

-- NULL, or the data of a block in use that was in no use in `h`, has room for `n` bytes and is all 0.
pub data Granted (h : Kheap) (phys : List ℕ) (n : ℕ) (all_blocks : List ℕ) (p : ℕ) (g : Kheap)
    : Type 0 where
  null : p ≡ 0 → Granted h phys n all_blocks p g
  granted :
      (b : ℕ)
      → p ≡ b + heap_header_size
      → has b all_blocks ≡ true
      → is_free_at g b ≡ false
      → n ≤ size_of g b
      → ((a : ℕ) → has a phys ≡ true → is_free_at h a ≡ false → b ≢ a)
      → ((a : ℕ) → in_range p (size_of g b) a ≡ true → g.pmm.mem a ≡ 0)
      → Granted h phys n all_blocks p g

-- What `kmalloc` has done to a steady heap when it returns `p`: the heap is steady, and the blocks in
-- use are in use still, with their sizes.
pub record Allotted (h : Kheap) (phys : List ℕ) (n : ℕ) (p : ℕ) (g : Kheap) : Type 0 where
  pub frontier : ℕ
  pub all_blocks : List ℕ
  pub free_blocks : List ℕ
  pub steady : Steady frontier g all_blocks free_blocks
  pub kept :
      (a : ℕ)
      → has a phys ≡ true
      → is_free_at h a ≡ false
      → (has a all_blocks ≡ true) × (is_free_at g a ≡ false) × (size_of g a ≡ size_of h a)
  pub result : Granted h phys n all_blocks p g

module _ (k : ℕ) (h : Kheap) (phys frees : List ℕ) (s : Steady k h phys frees) (n : ℕ) where
  nothing-Allotted : Allotted h phys n 0 h
  nothing-Allotted = record {
    frontier = k;
    all_blocks = phys;
    free_blocks = frees;
    steady = s;
    kept = λ a i u. (i, u, refl);
    result = null refl;
  }

  placed-Allotted :
      (fit : ℕ)
      → has fit frees ≡ true
      → n ≤ size_of h fit
      → Allotted h phys n (fit + heap_header_size) (place n fit h).1
  placed-Allotted fit i large =
      let (t, w) = place-Steady k h phys frees fit n s i large in
      let (_, free) = s.ready.heap.listed fit i in
      let apart : (a : ℕ) → is_free_at h a ≡ false → fit ≢ a =
        λ a u e. let bad : true ≡ false = sym free ∙ ap (is_free_at h) e ∙ u in cc in
      record {
        frontier = k;
        all_blocks = t.all_blocks;
        free_blocks = t.free_blocks;
        steady = w;
        kept = λ a j u. let (z, f) = t.same a j (apart a u) in (t.kept a j, f ∙ u, z);
        result = granted fit refl (t.block) (t.in_use) (t.large) (λ a j u. apart a u) (t.zeroed);
      }

  -- A search that has found `fit`, and `place`.
  found-Allotted :
      (fuel fit : ℕ)
      → find_fit fuel n h.free_list_head h.blocks ≡ some fit
      → fit ≢ 0
      → Allotted h phys n (fit + heap_header_size) (place n fit h).1
  found-Allotted fuel fit e z =
      let is =
        find_fit-found h n fuel 0 h.free_list_head frees fit s.ready.heap.free_list.chain e in
      let (i, large) = first_fit-fits (size_of h) n frees (λ q. z (is ∙ q)) in
      placed-Allotted fit (ap (λ b. has b frees) is ∙ i)
        (subst (λ b. n ≤ size_of h b) (sym is) large)

Granted-trans :
    (h g : Kheap) (phys blocks : List ℕ) (n : ℕ) (all_blocks : List ℕ) (p : ℕ) (g' : Kheap)
    → ((a : ℕ)
        → has a phys ≡ true
        → is_free_at h a ≡ false
        → (has a blocks ≡ true) × (is_free_at g a ≡ false) × (size_of g a ≡ size_of h a))
    → Granted g blocks n all_blocks p g'
    → Granted h phys n all_blocks p g'
Granted-trans h g phys blocks n all_blocks p g' k (null e) = null e
Granted-trans h g phys blocks n all_blocks p g' k (granted b e i u l new z) =
    granted b e i u l (λ a j f. let (m, q, _) = k a j f in new a m q) z

grown-Allotted :
    (h : Kheap) (phys frees : List ℕ) (m n : ℕ) (r : Bool × Kheap) (w : Bigger h phys frees m r)
    (p : ℕ) (g : Kheap)
    → Allotted r.1 w.all_blocks n p g
    → Allotted h phys n p g
grown-Allotted h phys frees m n r w p g t = record {
  frontier = t.frontier;
  all_blocks = t.all_blocks;
  free_blocks = t.free_blocks;
  steady = t.steady;
  kept = λ a i u. let (j, f, e) = w.kept a i u in let (l, q, z) = t.kept a j f in (l, q, z ∙ e);
  result = Granted-trans h r.1 phys w.all_blocks n t.all_blocks p g w.kept t.result;
}

-- What a call of `kmalloc` has done, if its searches end.
abbrev pub AllottedResult : Kheap → List ℕ → ℕ → Option (ℕ × Kheap) → Type 0
AllottedResult h phys n none = Unit {0}
AllottedResult h phys n (some (p, g)) = Allotted h phys n p g

first_fit-ne :
    (size : ℕ → ℕ) (n b : ℕ) (xs : List ℕ)
    → has 0 xs ≡ false
    → has b xs ≡ true
    → n ≤ size b
    → first_fit size n xs ≢ 0
first_fit-ne size n b [] o i l = λ e. cc
first_fit-ne size n b (x ∷ xs) o i l = elim (Bool-cases (leb n (size x))) [
  | inl e ↦ rw (first_fit-hit size n x xs e) (λ z. ground (arith, o, z))
  | inr e ↦ rw (first_fit-miss size n x xs e) (
      first_fit-ne size n b xs (ground (arith, o))
        (elim (Bool-cases (b == x)) [
          | inl q ↦ absurd (ground (arith, e, ap size (==-eq b x q), l))
          | inr q ↦ ground (arith, i, q)
        ])
        l)
]

module _ (k : ℕ) (h : Kheap) (phys frees : List ℕ) (s : Steady k h phys frees) (fuel size : ℕ) where
  abbrev n : ℕ
  n = align size

  -- The bytes that are asked of `expand_heap`.
  abbrev wanted : ℕ
  wanted = add64 n heap_header_size

  abbrev bigger : Bool × Kheap
  bigger = expand_heap wanted h

  retry-Allotted :
      (r : Bool × Kheap) → Bigger h phys frees wanted r → AllottedResult h phys n (retry fuel n r)
  unfolding retry place
  retry-Allotted (false, g) w =
      grown-Allotted h phys frees wanted n (false, g) w 0 g
        (nothing-Allotted w.frontier g w.all_blocks w.free_blocks w.steady n)
  retry-Allotted (true, g) w = elim (Option-cases (find_fit fuel n g.free_list_head g.blocks)) [
    | inl e ↦ rw e tt
    | inr (fit, e) ↦ elim (Bool-cases (fit == 0)) [
      | inl z ↦
          rw (e, z)
            (grown-Allotted h phys frees wanted n (true, g) w 0 g
              (nothing-Allotted w.frontier g w.all_blocks w.free_blocks w.steady n))
      | inr z ↦
          rw (e, z)
            (grown-Allotted h phys frees wanted n (true, g) w (fit + heap_header_size)
              (place n fit g).1
              (found-Allotted w.frontier g w.all_blocks w.free_blocks w.steady n fuel fit e
                (==-ne fit 0 z)))
    ]
  ]

  -- A call whose searches end within the fuel.
  pub kmalloc-Allotted : AllottedResult h phys n (kmalloc fuel size h)
  kmalloc-Allotted = elim (Bool-cases (size == 0)) [
    | inl z ↦ rw (kmalloc_null h size fuel z) (nothing-Allotted k h phys frees s n)
    | inr z ↦ elim (Option-cases (find_fit fuel n h.free_list_head h.blocks)) [
      | inl e ↦ rw (kmalloc_stuck h size fuel z e) tt
      | inr (fit, e) ↦ elim (Bool-cases (fit == 0)) [
        | inl f ↦
            rw (kmalloc-retry h size fuel (==-ne size 0 z) (e ∙ ap some (==-eq fit 0 f)))
              (retry-Allotted bigger (expand_heap-Bigger h phys frees wanted k s))
        | inr f ↦
            rw (kmalloc_hit h size fuel fit (==-ne size 0 z) (==-ne fit 0 f) e)
              (found-Allotted k h phys frees s n fuel fit e (==-ne fit 0 f))
      ]
    ]
  ]

  -- There is a size that a page can hold, and memory for an expansion.
  abbrev IsSmall : Type 0
  IsSmall =
      (size ≢ 0)
      × (n ≤ page_size - heap_header_size)
      × (pages_for wanted * page_size ≤ h.pmm.free_memory)

  -- The call returns, and not NULL for such a size.
  abbrev Returns : Option (ℕ × Kheap) → Type 0
  Returns o = (p : ℕ) × (g : Kheap) × (o ≡ some (p, g)) × (IsSmall → p ≢ 0)

  retry-Returns :
      (r : Bool × Kheap)
      → Bigger h phys frees wanted r
      → length frees + 1 < fuel
      → Returns (retry fuel n r)
  unfolding retry
  retry-Returns (false, g) w l = (0, g, refl, λ c. let bad : false ≡ true = w.enough c.2 in cc)
  retry-Returns (true, g) w l =
      let fit = first_fit (size_of g) n w.free_blocks in
      let e : find_fit fuel n g.free_list_head g.blocks ≡ some fit =
        find_fit-first_fit g n fuel 0 g.free_list_head w.free_blocks
          w.steady.ready.heap.free_list.chain (omega (arith, w.shorter, l)) in
      elim (Bool-cases (fit == 0)) [
        | inl z ↦ (
          0,
          g,
          rw (e, z) refl,
          λ c.
              let (b, i, large) = w.got refl in
              absurd (
                first_fit-ne (size_of g) n b w.free_blocks w.steady.ready.heap.free_list.non_null i
                  (omega (arith, large, c.1)) (==-eq fit 0 z)),
        )
        | inr z ↦ (
          fit + heap_header_size,
          (place n fit g).1,
          rw (e, z) (unfold place in refl),
          λ c q. omega (arith, q),
        )
      ]

  kmalloc-Returns : length frees + 1 < fuel → Returns (kmalloc fuel size h)
  kmalloc-Returns l =
      let fit = first_fit (size_of h) n frees in
      let e : find_fit fuel n h.free_list_head h.blocks ≡ some fit =
        find_fit-first_fit h n fuel 0 h.free_list_head frees s.ready.heap.free_list.chain
          (omega (arith, l)) in
      elim (Bool-cases (size == 0)) [
        | inl z ↦ (0, h, kmalloc_null h size fuel z, λ c. absurd (c.0 (==-eq size 0 z)))
        | inr z ↦ elim (Bool-cases (fit == 0)) [
          | inl f ↦
              rw (kmalloc-retry h size fuel (==-ne size 0 z) (e ∙ ap some (==-eq fit 0 f)))
                (retry-Returns bigger (expand_heap-Bigger h phys frees wanted k s) l)
          | inr f ↦ (
            fit + heap_header_size,
            (place n fit h).1,
            kmalloc_hit h size fuel fit (==-ne size 0 z) (==-ne fit 0 f) e,
            λ c q. omega (arith, q),
          )
        ]
      ]

  -- `kmalloc` on every branch, without what its `memset` may do to the bitmap (Heap.Bytes), on a steady heap,
  -- with fuel for each free block and two rounds more: it returns, the heap that it leaves is steady, the blocks in use are in use still with their sizes, and
  -- what it returns is NULL or the data of a block that was not in use, with room for the size rounded
  -- up, all 0.
  pub kmalloc-always :
      length frees + 1 < fuel
      → (p : ℕ) × (g : Kheap) × (kmalloc fuel size h ≡ some (p, g))
        × Allotted h phys (align size) p g
  kmalloc-always l = let (p, g, e, _) = kmalloc-Returns l in (p, g, e, rw e at kmalloc-Allotted)

  -- For a size other than 0 that, rounded up, a page can hold, and with memory for an expansion by it, the
  -- call does not return NULL, however the free list is cut up.
  pub kmalloc-succeeds :
      length frees + 1 < fuel
      → size ≢ 0
      → align size ≤ page_size - heap_header_size
      → pages_for (add64 (align size) heap_header_size) * page_size ≤ h.pmm.free_memory
      → (p : ℕ) × (g : Kheap) × (kmalloc fuel size h ≡ some (p, g))
        × (p ≢ 0)
        × Allotted h phys (align size) p g
  kmalloc-succeeds l z small memory =
      let (p, g, e, n) = kmalloc-Returns l in
      (p, g, e, n (z, small, memory), rw e at kmalloc-Allotted)
