-- ===== src/Heap/Total.antt =====
-- `expand_heap` on every branch: with or without a merge, and when the frames run out halfway.
use solace_os.Base.{
  ℕ, ◌+◌, ◌*◌, ◌-◌, ◌≤◌, ◌≡◌, ◌≢◌, refl, sym, ap, ◌∙◌, subst, inl, inr, Bool, true, false, List, [],
  ◌∷◌, ◌++◌, length, arith, Bool-cases, ==_self, ==_of_ne,
}
use mathlib.Core.List.{append-nil}
use solace_os.Frames.{Pmm, page_size, test_bit}
use solace_os.Frames.Valid.{IsValid}
use solace_os.Heap.{
  Kheap, heap_header_size, add_to_free_list, merge_back, pages_for, expand_loop, expand_heap,
}
use solace_os.Heap.Chain.{
  has, has-append, has-here, has-ne, has-last_of, last_of, last_of-append, head_of,
}
use solace_os.Heap.FreeList.{add-SameLayout, is_free-add_to_free_list}
use solace_os.Heap.Valid.{size_of, is_free_at, IsHeap, add_to_free_list-IsHeap}
use solace_os.Heap.Expand.{Ready}
use solace_os.Heap.Pages.{Expanded, expand_loop-Expanded}
use solace_os.Heap.Start.{after_loop, put_on_list, expand_heap-after_loop, last_cases}
use solace_os.Heap.Kept.{add-pmm}
use solace_os.Heap.Merged.{Merged}
use solace_os.Heap.Joining.{merge_back-Merged}
use solace_os.Heap.Place.{Steady}
use solace_os.Heap.Tail.{IsTail, add-SameLinks, same-IsTail, unlinked_still}

-- What `expand_heap` has done to a steady heap: it is still one, in which the blocks in use are as they
-- were; if it succeeded, a block with room for a page is on the free list.
pub record Bigger (h : Kheap) (phys frees : List ℕ) (m : ℕ) (r : Bool × Kheap) : Type 0 where
  pub frontier : ℕ
  pub all_blocks : List ℕ
  pub free_blocks : List ℕ
  pub steady : Steady frontier r.1 all_blocks free_blocks
  pub kept :
      (a : ℕ)
      → has a phys ≡ true
      → is_free_at h a ≡ false
      → (has a all_blocks ≡ true) × (is_free_at r.1 a ≡ false) × (size_of r.1 a ≡ size_of h a)
  pub shorter : length free_blocks ≤ length frees + 1
  pub got :
      r.0 ≡ true
      → (b : ℕ) × (has b free_blocks ≡ true) × (page_size - heap_header_size ≤ size_of r.1 b)
  pub enough : pages_for m * page_size ≤ h.pmm.free_memory → r.0 ≡ true

-- The end of `expand_heap`.
module _ (f : ℕ) (h : Kheap) (phys frees : List ℕ) (r : ℕ × Kheap)
    (w : Merged f h phys frees r) where
  abbrev listed : Kheap
  listed = add_to_free_list r.0 r.1

  positive : (a : ℕ) → has a w.all_blocks ≡ true → a ≢ 0
  positive a i e = has-ne 0 a w.all_blocks w.ready.heap.non_null i (sym e)

  listed-Ready : Ready f listed w.all_blocks (r.0 ∷ w.free_blocks)
  listed-Ready = record {
    heap = add_to_free_list-IsHeap r.1 w.all_blocks w.free_blocks w.ready.heap r.0 w.block w.out;
    frames = subst IsValid (sym (add-pmm r.0 r.1)) w.ready.frames;
    used =
        λ j i. ap {A = Pmm} (λ s. test_bit j s.frame_bitmap) (add-pmm r.0 r.1) ∙ w.ready.used j i;
    below = λ a i. rw ((add-SameLayout r.0 r.1).size a) (w.ready.below a i);
  }

  listed-IsTail : IsTail listed (r.0 ∷ w.free_blocks) (last_of 0 w.all_blocks)
  listed-IsTail = elim (w.last) [
    | inl e ↦ inr (inr (inl (rw (e, ==_self r.0))))
    | inr (o, u, d) ↦ elim (last_cases w.all_blocks) [
      | inl z ↦ inl z
      | inr i ↦
          let a = last_of 0 w.all_blocks in
          inr (
            inr (
              inr (
                rw (==_of_ne a r.0 (λ e. d (sym e))) o,
                unlinked_still r.1 listed a
                    (add-SameLinks r.1 a (positive a i) w.free_blocks r.0 w.ready.heap.free_list o
                      d)
                    u,
              )))
    ]
  ]

  listed-Steady : Steady f listed w.all_blocks (r.0 ∷ w.free_blocks)
  listed-Steady = record { ready = listed-Ready; tail = listed-IsTail }

  listed-kept :
      (a : ℕ)
      → has a phys ≡ true
      → is_free_at h a ≡ false
      → (has a w.all_blocks ≡ true)
        × (is_free_at listed a ≡ false)
        × (size_of listed a ≡ size_of h a)
  listed-kept a i u =
      let (j, d, g, e) = w.kept a i u in
      (
        j,
        is_free-add_to_free_list r.0 r.1 a ∙ rw (==_of_ne r.0 a d) g,
        (add-SameLayout r.0 r.1).size a ∙ e,
      )

  listed-Bigger : (m : ℕ) → Bigger h phys frees m (true, listed)
  listed-Bigger m = record {
    frontier = f;
    all_blocks = w.all_blocks;
    free_blocks = r.0 ∷ w.free_blocks;
    steady = listed-Steady;
    kept = listed-kept;
    shorter = omega (arith, w.shorter);
    got = λ e. (r.0, rw (==_self r.0), rw ((add-SameLayout r.0 r.1).size r.0) (w.large));
    enough = λ e. refl;
  }

module _ (h : Kheap) (phys frees : List ℕ) (m k : ℕ) (s : Steady k h phys frees) where
  -- The frames ran out: the pages that there were are blocks, off the free list.
  stopped-IsTail :
      (g : Kheap) (nb : ℕ) (x : Expanded h phys frees (pages_for m) 0 (false, nb, g))
      (pages : List ℕ)
      → x.pages ≡ pages
      → IsTail g frees (last_of 0 (phys ++ pages))
  stopped-IsTail g nb x [] e = rw append-nil (
      same-IsTail h g frees frees (last_of 0 phys) s.tail (λ z. (x.kept (last_of 0 phys) (old z)).1)
        (λ i. i) (λ z o. let l = x.kept (last_of 0 phys) (old z) in (o, (l.2, l.3))))
    where
      old : last_of 0 phys ≢ 0 → has (last_of 0 phys) phys ≡ true
      old z = elim (last_cases phys) [ inl q ↦ absurd (z q) | inr i ↦ i ]
  stopped-IsTail g nb x (p ∷ ps) e =
      let b = last_of p ps in
      let i : has b x.pages ≡ true = ap (has b) e ∙ has-last_of p ps in
      let l = x.loose b i in
      let new : IsHeap g (phys ++ p ∷ ps) frees =
        subst (λ xs. IsHeap g (phys ++ xs) frees) e x.ready.heap in
      rw (last_of-append 0 p phys ps) (
        inr (inr (elim (Bool-cases (has b frees)) [ inl j ↦ inl j | inr o ↦ inr (o, (l.2, l.3)) ])))

  stopped-Bigger :
      (g : Kheap) (nb : ℕ)
      → Expanded h phys frees (pages_for m) 0 (false, nb, g)
      → Bigger h phys frees m (false, g)
  stopped-Bigger g nb x = record {
    frontier = x.frontier;
    all_blocks = phys ++ x.pages;
    free_blocks = frees;
    steady = record { ready = x.ready; tail = stopped-IsTail g nb x x.pages refl };
    kept = λ a i u.
        let l = x.kept a i in (has-append a phys x.pages ∙ ground (arith, i), l.1 ∙ u, l.0);
    shorter = omega arith;
    got = λ e. cc;
    enough = x.enough;
  }

  put-Bigger :
      (f p : ℕ) (g : Kheap)
      → Merged f h phys frees (merge_back p g)
      → p ≢ 0
      → Bigger h phys frees m (after_loop (true, p, g))
  unfolding after_loop put_on_list
  put-Bigger f p g w z = rw (==_of_ne p 0 z) (listed-Bigger f h phys frees (merge_back p g) w m)

  done-Bigger :
      (p : ℕ) (g : Kheap) (x : Expanded h phys frees (pages_for m) 0 (true, p, g)) (pages : List ℕ)
      → x.pages ≡ pages
      → Bigger h phys frees m (after_loop (true, p, g))
  done-Bigger p g x [] e =
      let none_left : 0 ≡ pages_for m = ap length (sym e) ∙ x.count refl in
      absurd (ground (arith, none_left))
  done-Bigger p g x (q ∷ ps) e =
      let is : q ≡ p = sym (x.first ∙ ap head_of e) in
      let at : x.pages ≡ p ∷ ps = e ∙ ap (λ c. c ∷ ps) is in
      let ready : Ready x.frontier g (phys ++ p ∷ ps) frees =
        subst (λ xs. Ready x.frontier g (phys ++ xs) frees) at x.ready in
      put-Bigger x.frontier p g
        (merge_back-Merged x.frontier h g phys frees ps p ready (λ a i. (s.ready.heap.listed a i).0)
          x.kept (λ a i. x.loose a (ap (has a) at ∙ i)) s.tail)
        (λ z. has-ne 0 p (phys ++ p ∷ ps) ready.heap.non_null (has-here p phys ps) (sym z))

  after-Bigger :
      (r : Bool × ℕ × Kheap)
      → Expanded h phys frees (pages_for m) 0 r
      → Bigger h phys frees m (after_loop r)
  unfolding after_loop
  after-Bigger (false, nb, g) x = stopped-Bigger g nb x
  after-Bigger (true, p, g) x = done-Bigger p g x x.pages refl

  -- `expand_heap`, whatever the last block is and whether the frames suffice, keeps a heap steady and
  -- the blocks in use as they are; and with memory for its pages it puts a block on the free list that
  -- has room for a page.
  pub expand_heap-Bigger : Bigger h phys frees m (expand_heap m h)
  expand_heap-Bigger = rw (expand_heap-after_loop m h) (
      after-Bigger (expand_loop (pages_for m) 0 h)
        (expand_loop-Expanded (pages_for m) 0 k h phys frees s.ready))
