-- ===== src/Heap/Loose.antt =====
-- Heaps in which one block is off the free list, as between the steps of `kfree`, and the join of two
-- neighbours there.
use solace_os.Base.{
  ℕ, ◌+◌, ◌≤◌, ◌≡◌, ◌≢◌, refl, sym, ap, ◌∙◌, ◌⊎◌, inl, inr, Bool, true, false, List, ◌∷◌, ◌++◌,
  arith, ◌==◌, if◌then◌else◌, Bool-cases, ==-ne, ==_self, ==_of_ne,
}
use solace_os.Heap.{Kheap, heap_header_size, remove_from_free_list, absorb, clear}
use solace_os.Heap.Chain.{has, has-append, has-here}
use solace_os.Heap.FreeList.{remove-SameLayout, is_free-remove_from_free_list}
use solace_os.Heap.Layout.{Layout-next}
use solace_os.Heap.Valid.{size_of, is_free_at, IsHeap, remove_from_free_list-IsHeap}
use solace_os.Heap.Merge
use solace_os.Heap.FirstFit.{mem_split}

-- Every block that is marked free is on the free list.
abbrev pub AllListed : Kheap → List ℕ → List ℕ → Type 0
AllListed h phys frees = (a : ℕ) → has a phys ≡ true → is_free_at h a ≡ true → has a frees ≡ true

-- A valid heap in which that holds but for the block `m`, which is not on the free list.
pub record Loose (g : Kheap) (all_blocks free_blocks : List ℕ) (m : ℕ) : Type 0 where
  pub valid : IsHeap g all_blocks free_blocks
  pub block : has m all_blocks ≡ true
  pub out : has m free_blocks ≡ false
  pub marked :
      (a : ℕ) → has a all_blocks ≡ true → is_free_at g a ≡ true → m ≢ a → has a free_blocks ≡ true

-- The blocks in use other than `b` are blocks of `g` other than `m`, in use and of the same size.
abbrev pub Keeps : Kheap → List ℕ → ℕ → Kheap → List ℕ → ℕ → Type 0
Keeps h phys b g all_blocks m =
    (a : ℕ)
    → has a phys ≡ true
    → is_free_at h a ≡ false
    → b ≢ a
    → (m ≢ a) × (has a all_blocks ≡ true) × (is_free_at g a ≡ false) × (size_of g a ≡ size_of h a)

-- The loose block `b` of `h` has become part of the loose block `m` of `g`.
pub record Coalesced (h : Kheap) (phys : List ℕ) (b : ℕ) (g : Kheap) (m : ℕ) : Type 0 where
  pub all_blocks : List ℕ
  pub free_blocks : List ℕ
  pub loose : Loose g all_blocks free_blocks m
  pub keeps : Keeps h phys b g all_blocks m
  pub below : m ≤ b
  pub large : size_of h b ≤ size_of g m

pub true_ne : (t : Bool) → t ≡ true → t ≡ false → (A : Type 0) → A
true_ne t e f A = let bad : true ≡ false = sym e ∙ f in cc

pub stay : (h : Kheap) (phys frees : List ℕ) (b : ℕ) → Loose h phys frees b → Coalesced h phys b h b
stay h phys frees b s = record {
  all_blocks = phys;
  free_blocks = frees;
  loose = s;
  keeps = λ a i f d. (d, i, f, refl);
  below = omega arith;
  large = omega arith;
}

pub followed_by :
    (h g k : Kheap) (phys : List ℕ) (b m : ℕ) (s : Coalesced h phys b g b)
    → Coalesced g s.all_blocks b k m
    → Coalesced h phys b k m
followed_by h g k phys b m s t = record {
  all_blocks = t.all_blocks;
  free_blocks = t.free_blocks;
  loose = t.loose;
  keeps = λ a i f d.
      let (_, j, u, e) = s.keeps a i f d in let (n, l, w, q) = t.keeps a j u d in (n, l, w, q ∙ e);
  below = t.below;
  large = omega (arith, s.large, t.large);
}

-- Two neighbours, neither of them on the free list, are joined.
module _ (k : Kheap) (us zs rest : List ℕ) (l r : ℕ) (v : IsHeap k (us ++ l ∷ r ∷ zs) rest)
    (out_l : has l rest ≡ false) (out_r : has r rest ≡ false)
    (marked : (a : ℕ)
      → has a (us ++ l ∷ r ∷ zs) ≡ true
      → is_free_at k a ≡ true
      → l ≢ a
      → r ≢ a
      → has a rest ≡ true) where
  abbrev joined : Kheap
  joined = Merge.merged k us zs rest l r v out_r

  in_old : (a : ℕ) → has a (us ++ l ∷ zs) ≡ true → has a (us ++ l ∷ r ∷ zs) ≡ true
  in_old a i = ground (arith, has-append a us (l ∷ zs), has-append a us (l ∷ r ∷ zs))

  join-Loose : Loose joined (us ++ l ∷ zs) rest l
  join-Loose = record {
    valid = Merge.merged-IsHeap k us zs rest l r v out_r;
    block = has-here l us zs;
    out = out_l;
    marked = λ a i f d.
        let same = (Merge.merged-block k us zs rest l r v out_r a i).1 in
        marked a (in_old a i) (sym same ∙ f) d (Merge.ne-right k us zs rest l r v out_r a i);
  }

  join-other :
      (a : ℕ)
      → has a (us ++ l ∷ r ∷ zs) ≡ true
      → l ≢ a
      → r ≢ a
      → (has a (us ++ l ∷ zs) ≡ true)
        × (is_free_at joined a ≡ is_free_at k a)
        × (size_of joined a ≡ size_of k a)
  join-other a i d e =
      let j = Merge.in_new k us zs rest l r v out_r a i e in
      let (s, f) = Merge.merged-block k us zs rest l r v out_r a j in
      (j, f, s ∙ rw (==_of_ne l a d))

  join-size : size_of joined l ≡ size_of k l + (size_of k r + heap_header_size)
  join-size = (Merge.merged-block k us zs rest l r v out_r l (has-here l us zs)).0 ∙ rw (==_self l)

-- The neighbour `x` of the loose block `y` is free, and goes off the free list.
module _ (h : Kheap) (phys frees : List ℕ) (y x : ℕ) (s : Loose h phys frees y)
    (i : has x phys ≡ true) (f : is_free_at h x ≡ true) (d : y ≢ x) where
  abbrev taken : Kheap
  taken = remove_from_free_list x h

  record Detached (rest : List ℕ) : Type 0 where
    valid : IsHeap taken phys rest
    out_x : has x rest ≡ false
    out_y : has y rest ≡ false
    marked : (a : ℕ) → has a phys ≡ true → is_free_at taken a ≡ true → y ≢ a → has a rest ≡ true

  is_free-taken : (a : ℕ) → is_free_at taken a ≡ (if x == a then false else is_free_at h a)
  is_free-taken a = is_free-remove_from_free_list x h a

  size-taken : (a : ℕ) → size_of taken a ≡ size_of h a
  size-taken a = (remove-SameLayout x h).size a

  detach_at : (ys zs : List ℕ) → frees ≡ ys ++ x ∷ zs → Detached (ys ++ zs)
  detach_at ys zs e =
      let (v, g, o) = remove_from_free_list-IsHeap h phys x ys zs (rw (← e) s.valid) in
      let out_list : has y (ys ++ x ∷ zs) ≡ false = rw (← e) s.out in
      record {
        valid = v;
        out_x = o;
        out_y = ground (arith, out_list, has-append y ys zs, has-append y ys (x ∷ zs));
        marked = λ a j t n. elim (Bool-cases (x == a)) [
          | inl q ↦ true_ne (is_free_at taken a) t (is_free-taken a ∙ rw q) _
          | inr q ↦
              let same : is_free_at taken a ≡ is_free_at h a = is_free-taken a ∙ rw q in
              let was : is_free_at h a ≡ true = sym same ∙ t in
              let old : has a (ys ++ x ∷ zs) ≡ true = rw (← e) (s.marked a j was n) in
              ground (arith, old, has-append a ys zs, has-append a ys (x ∷ zs), ==-ne x a q)
        ];
      }

  detach : (rest : List ℕ) × Detached rest
  detach = let (ys, zs, e) = mem_split x frees (s.marked x i f d) in (ys ++ zs, detach_at ys zs e)

-- Two neighbours, of which one is loose and the other free, become one loose block. `x` is the free
-- one.
module _ (h : Kheap) (us zs frees : List ℕ) (l r : ℕ) where
  abbrev pair : List ℕ
  pair = us ++ l ∷ r ∷ zs

  pub right_in : has r pair ≡ true
  right_in = ground (arith, has-append r us (l ∷ r ∷ zs))

  -- Which of the two is which.
  abbrev Sides : ℕ → ℕ → Type 0
  Sides y x = ((y ≡ l) × (x ≡ r)) ⊎ ((y ≡ r) × (x ≡ l))

  module _ (y x : ℕ) (s : Loose h pair frees y) (i : has x pair ≡ true) (f : is_free_at h x ≡ true)
      (sides : Sides y x) where
    order : l + heap_header_size + size_of h l ≤ r
    order = Layout-next (size_of h) l r zs us s.valid.layout

    ne : y ≢ x
    ne e = omega (arith, order, sides, e)

    both_ne : (a : ℕ) → y ≢ a → x ≢ a → (l ≢ a) × (r ≢ a)
    both_ne a d e = (omega (arith, sides, d, e), omega (arith, sides, d, e))

    module _ (rest : List ℕ) (t : Detached h pair frees y x s i f ne rest) where
      outs : (has l rest ≡ false) × (has r rest ≡ false)
      outs = elim sides [
        | inl (p, q) ↦ (rw (← p) t.out_y, rw (← q) t.out_x)
        | inr (p, q) ↦ (rw (← q) t.out_x, rw (← p) t.out_y)
      ]

      marked_taken :
          (a : ℕ)
          → has a pair ≡ true
          → is_free_at (remove_from_free_list x h) a ≡ true
          → l ≢ a
          → r ≢ a
          → has a rest ≡ true
      marked_taken a j g d e = t.marked a j g (omega (arith, sides, d, e))

      join_at :
          Coalesced h pair y (clear r heap_header_size (absorb l r (remove_from_free_list x h))) l
      join_at =
          let k = remove_from_free_list x h in
          record {
            all_blocks = us ++ l ∷ zs;
            free_blocks = rest;
            loose = join-Loose k us zs rest l r t.valid outs.0 outs.1 marked_taken;
            keeps = λ a j g d.
                let other : x ≢ a = λ e. true_ne (is_free_at h x) f (ap (is_free_at h) e ∙ g) _ in
                let (u, w) = both_ne a d other in
                let (m, n, z) =
                  join-other k us zs rest l r t.valid outs.0 outs.1 marked_taken a j u w in
                (
                  u,
                  m,
                  n ∙ is_free-taken h pair frees y x s i f ne a ∙ rw (==_of_ne x a other) g,
                  z ∙ size-taken h pair frees y x s i f ne a,
                );
            below = omega (arith, sides, order);
            large =
                grown_size (join-size k us zs rest l r t.valid outs.0 outs.1 marked_taken)
                  (size-taken h pair frees y x s i f ne l) (size-taken h pair frees y x s i f ne r);
          }
        where
          grown_size :
              {n a b : ℕ}
              → n ≡ a + (b + heap_header_size)
              → a ≡ size_of h l
              → b ≡ size_of h r
              → size_of h y ≤ n
          grown_size p q w = elim sides [
            | inl (e, o) ↦ rw e (omega (arith, p, q, w))
            | inr (e, o) ↦ rw e (omega (arith, p, q, w))
          ]

    pub join :
        Coalesced h pair y (clear r heap_header_size (absorb l r (remove_from_free_list x h))) l
    join = let (rest, t) = detach h pair frees y x s i f ne in join_at rest t
