-- ===== src/Heap/Runs.antt =====
-- Runs of `kmalloc`: what a client that frees nothing gets.
use solace_os.Base.{
  ℕ, ◌+◌, ◌≤◌, ◌≡◌, ◌≢◌, refl, sym, subst, ◌⊎◌, inl, inr, true, false, Option, some, List, [], ◌∷◌,
  arith,
}
use solace_os.Frames.Valid.{IsValid}
use solace_os.Frames.{Linker, BootParams}
use solace_os.Heap.{Kheap, heap_header_size, align, kmalloc, kheap_init}
use solace_os.Heap.Bytes.{kmalloc_bytes, Spares, kmalloc_bytes-Spares}
use solace_os.Heap.Chain.{has}
use solace_os.Heap.Layout.{Apart, Layout-Apart}
use solace_os.Heap.Valid.{size_of, is_free_at}
use solace_os.Heap.Start.{empty, empty-Ready}
use solace_os.Heap.Place.{Steady}
use solace_os.Heap.Total.{expand_heap-Bigger}
use solace_os.Heap.Always.{Allotted, null, granted, Granted, kmalloc-Allotted}

-- The calls of `kmalloc` that lead from one heap to another, none of which clears a byte of the kernel's image
-- or the bitmap: the pointers other than NULL that they returned, the latest first, each with its size
-- rounded up.
pub data Mallocs (l : Linker) (params : Option BootParams) (h : Kheap)
    : List (ℕ × ℕ) → Kheap → Type 0 where
  start : Mallocs l params h [] h
  failed :
      {live : List (ℕ × ℕ)} {g : Kheap}
      → Mallocs l params h live g
      → (fuel size : ℕ) (g' : Kheap) → kmalloc_bytes fuel size g ≡ some (0, g')
      → Mallocs l params h live g'
  returned :
      {live : List (ℕ × ℕ)} {g : Kheap}
      → Mallocs l params h live g
      → (fuel size p : ℕ) (g' : Kheap) → kmalloc_bytes fuel size g ≡ some (p, g')
      → p ≢ 0
      → Spares l params p g'
      → Mallocs l params h ((p, align size) ∷ live) g'

-- The `n` bytes from `p` on and each of the ranges have no byte in common.
abbrev pub Away : ℕ → ℕ → List (ℕ × ℕ) → Type 0
Away p n [] = Unit {0}
Away p n ((q, m) ∷ live) = ((p + n ≤ q) ⊎ (q + m ≤ p)) × Away p n live

-- No two of the ranges have a byte in common.
abbrev pub Disjoint : List (ℕ × ℕ) → Type 0
Disjoint [] = Unit {0}
Disjoint ((p, n) ∷ live) = Away p n live × Disjoint live

-- Each range lies in the data of a block in use.
abbrev pub Held : Kheap → List ℕ → List (ℕ × ℕ) → Type 0
Held g phys [] = Unit {0}
Held g phys ((p, n) ∷ live) =
    ((b : ℕ) × (p ≡ b + heap_header_size)
      × (has b phys ≡ true)
      × (is_free_at g b ≡ false)
      × (n ≤ size_of g b))
    × Held g phys live

Held-kept :
    (g g' : Kheap) (phys phys' : List ℕ) (live : List (ℕ × ℕ))
    → ((a : ℕ)
        → has a phys ≡ true
        → is_free_at g a ≡ false
        → (has a phys' ≡ true) × (is_free_at g' a ≡ false) × (size_of g' a ≡ size_of g a))
    → Held g phys live
    → Held g' phys' live
Held-kept g g' phys phys' [] k w = tt
Held-kept g g' phys phys' ((p, n) ∷ live) k ((b, e, i, f, l), w) =
    let (j, q, s) = k b i f in
    ((b, e, j, q, omega (arith, l, s)), Held-kept g g' phys phys' live k w)

-- A block that was in no use before lies apart from all ranges.
Held-Away :
    (g g' : Kheap) (phys : List ℕ) (k : ℕ) (phys' frees' : List ℕ) (b n : ℕ) (live : List (ℕ × ℕ))
    → Steady k g' phys' frees'
    → has b phys' ≡ true
    → n ≤ size_of g' b
    → ((a : ℕ) → has a phys ≡ true → is_free_at g a ≡ false → b ≢ a)
    → ((a : ℕ)
        → has a phys ≡ true
        → is_free_at g a ≡ false
        → (has a phys' ≡ true) × (is_free_at g' a ≡ false) × (size_of g' a ≡ size_of g a))
    → Held g phys live
    → Away (b + heap_header_size) n live
Held-Away g g' phys k phys' frees' b n [] s i l new kept w = tt
Held-Away g g' phys k phys' frees' b n ((q, m) ∷ live) s i l new kept ((c, e, j, f, r), w) =
    let (j', _, z) = kept c j f in
    (
      apart (Layout-Apart (size_of g') phys' b c s.ready.heap.layout i j' (new c j f)) z,
      Held-Away g g' phys k phys' frees' b n live s i l new kept w,
    )
  where
    apart :
        Apart (size_of g') b c
        → size_of g' c ≡ size_of g c
        → (b + heap_header_size + n ≤ q) ⊎ (q + m ≤ b + heap_header_size)
    apart (inl x) z = inl (omega (arith, x, e, l))
    apart (inr x) z = inr (omega (arith, x, e, r, z))

-- A steady heap whose ranges are as they should be.
pub record Served (g : Kheap) (live : List (ℕ × ℕ)) : Type 0 where
  pub frontier : ℕ
  pub all_blocks : List ℕ
  pub free_blocks : List ℕ
  pub steady : Steady frontier g all_blocks free_blocks
  pub held : Held g all_blocks live
  pub disjoint : Disjoint live

allotted :
    (g : Kheap) (live : List (ℕ × ℕ)) (w : Served g live) (fuel size p : ℕ) (g' : Kheap)
    → kmalloc fuel size g ≡ some (p, g')
    → Allotted g w.all_blocks (align size) p g'
allotted g live w fuel size p g' e =
    rw e at (kmalloc-Allotted w.frontier g w.all_blocks w.free_blocks w.steady fuel size)

failed-Served :
    (g : Kheap) (live : List (ℕ × ℕ)) (w : Served g live) (n p : ℕ) (g' : Kheap)
    → Allotted g w.all_blocks n p g'
    → Served g' live
failed-Served g live w n p g' t = record {
  frontier = t.frontier;
  all_blocks = t.all_blocks;
  free_blocks = t.free_blocks;
  steady = t.steady;
  held = Held-kept g g' w.all_blocks t.all_blocks live t.kept w.held;
  disjoint = w.disjoint;
}

returned-Served :
    (g : Kheap) (live : List (ℕ × ℕ)) (w : Served g live) (n p : ℕ) (g' : Kheap)
    → (t : Allotted g w.all_blocks n p g') → Granted g w.all_blocks n t.all_blocks p g'
    → p ≢ 0
    → Served g' ((p, n) ∷ live)
returned-Served g live w n p g' t (null e) z = absurd (z e)
returned-Served g live w n p g' t (granted b e i u l new zeroed) z = record {
  frontier = t.frontier;
  all_blocks = t.all_blocks;
  free_blocks = t.free_blocks;
  steady = t.steady;
  held = ((b, e, i, u, l), Held-kept g g' w.all_blocks t.all_blocks live t.kept w.held);
  disjoint = (
    subst (λ a. Away a n live) (sym e)
        (Held-Away g g' w.all_blocks t.frontier t.all_blocks t.free_blocks b n live t.steady i l new
          t.kept w.held),
    w.disjoint,
  );
}

module _ (l : Linker) (params : Option BootParams) (h : Kheap) where
  pub Mallocs-Served :
      {live : List (ℕ × ℕ)} {g : Kheap} → Served h [] → Mallocs l params h live g → Served g live
  Mallocs-Served w start = w
  Mallocs-Served w (failed {live} {g} r fuel size g' e) =
      let v = Mallocs-Served w r in
      let f = kmalloc_bytes-Spares l params fuel size 0 g g' e (λ z. absurd (z refl)) in
      failed-Served g live v (align size) 0 g' (allotted g live v fuel size 0 g' f)
  Mallocs-Served w (returned {live} {g} r fuel size p g' e z s) =
      let v = Mallocs-Served w r in
      let f = kmalloc_bytes-Spares l params fuel size p g g' e (λ q. s) in
      let t = allotted g live v fuel size p g' f in
      returned-Served g live v (align size) p g' t t.result z

-- The heap that `kheap_init` makes.
pub kheap_init-Served : (h : Kheap) → IsValid h.pmm → Served (kheap_init h) []
unfolding kheap_init
kheap_init-Served h v =
    let w =
      expand_heap-Bigger (empty h) [] [] 16384 0
        (record { ready = empty-Ready h v; tail = inl refl }) in
    record {
      frontier = w.frontier;
      all_blocks = w.all_blocks;
      free_blocks = w.free_blocks;
      steady = w.steady;
      held = tt;
      disjoint = tt;
    }
