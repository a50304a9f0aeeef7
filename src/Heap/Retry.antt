-- ===== src/Heap/Retry.antt =====
-- `kmalloc` when no block of the free list is large enough, so that it expands the heap.
use solace_os.Base.{
  ℕ, ◌+◌, ◌*◌, ◌-◌, ◌≤◌, ◌<◌, ◌≡◌, ◌≢◌, refl, sym, ap, ◌∙◌, subst, Bool, true, not, Option, none,
  some, List, [], ◌∷◌, ◌++◌, arith, leb, ◌==◌, if◌then◌else◌, length, ==_self, ==_of_ne, add64,
}
use solace_os.Frames.{page_size}
use solace_os.Heap.{
  Kheap, heap_header_size, align, find_fit, pages_for, expand_heap, place, kmalloc,
}
use solace_os.Heap.Chain.{has, has-ne, head_of}
use solace_os.Heap.Valid.{size_of, IsHeap}
use solace_os.Heap.FirstFit.{first_fit, first_fit-fits, find_fit-first_fit}
use solace_os.Heap.Malloc.{Taken, place-Taken_at}
use solace_os.Heap.Expand.{Ready}
use solace_os.Heap.Start.{NoMerge, Grew, expand_heap-Grew}

-- `kmalloc` behind its call of `expand_heap`.
unfoldable pub retry : ℕ → ℕ → Bool × Kheap → Option (ℕ × Kheap)
retry fuel n (grown, h) =
    if not grown then some (0, h) else elim (find_fit fuel n h.free_list_head h.blocks) [
      | none ↦ none
      | some fit ↦ if fit == 0 then some (0, h) else some (place n fit h)
    ]

pub kmalloc-retry :
    (h : Kheap) (size fuel : ℕ)
    → size ≢ 0
    → find_fit fuel (align size) h.free_list_head h.blocks ≡ some 0
    → kmalloc fuel size h
      ≡ retry fuel (align size) (expand_heap (add64 (align size) heap_header_size) h)
unfolding kmalloc retry
kmalloc-retry h size fuel n e = rw (==_of_ne size 0 n, e) refl

retry_found :
    (g : Kheap) (n fuel fit : ℕ)
    → find_fit fuel n g.free_list_head g.blocks ≡ some fit
    → fit ≢ 0
    → retry fuel n (true, g) ≡ some (fit + heap_header_size, (place n fit g).1)
unfolding retry place
retry_found g n fuel fit e z = rw (retry, e, ==_of_ne fit 0 z) refl

module _ (h : Kheap) (phys frees : List ℕ) (size k : ℕ) (ready : Ready k h phys frees)
    (no : NoMerge h phys) (positive : size ≢ 0) (small : align size ≤ page_size - heap_header_size)
    (none_fits : first_fit (size_of h) (align size) frees ≡ 0)
    (memory : pages_for (add64 (align size) heap_header_size) * page_size ≤ h.pmm.free_memory) where
  -- The bytes that are asked of `expand_heap`.
  abbrev wanted : ℕ
  wanted = add64 (align size) heap_header_size

  new_head :
      (r : Bool × Kheap) (w : Grew h phys frees wanted r) (pages : List ℕ)
      → w.pages ≡ pages
      → r.0 ≡ true
      → (first_fit (size_of r.1) (align size) (head_of pages ∷ frees) ≡ head_of pages)
        × (head_of pages ≢ 0)
        × IsHeap r.1 (phys ++ pages) (head_of pages ∷ frees)
  unfolding first_fit
  new_head r w [] e ok =
      let none_left : 0 ≡ pages_for wanted = ap length (sym e) ∙ w.count ok in
      absurd (ground (arith, none_left))
  new_head r w (p ∷ ps) e ok =
      let v : IsHeap r.1 (phys ++ p ∷ ps) (p ∷ frees) =
        subst (λ l. IsHeap r.1 (phys ++ l) (head_of l ∷ frees)) e (rw ok at (w.heap)) in
      let is : size_of r.1 p ≡ page_size - heap_header_size =
        (w.page p (ap (has p) e ∙ ground arith)).0 in
      let fits : leb (align size) (size_of r.1 p) ≡ true = rw is (ground (arith, small)) in
      (rw fits refl, (λ z. has-ne 0 p (p ∷ frees) v.free_list.non_null (rw (==_self p)) (sym z)), v)

  -- When no block of the free list can hold `size` bytes, the last block is in use, `size` is such that
  -- a page can hold it, and there is memory for the expansion: `kmalloc` expands the heap, which keeps
  -- the blocks that there are, and takes the first new page. With fuel for each free block and two rounds
  -- more both searches end, and the heap that is left is valid, with the other blocks as they were.
  pub kmalloc-expands :
      (fuel : ℕ)
      → length frees + 1 < fuel
      → (r : Bool × Kheap) × (w : Grew h phys frees wanted r) × (g : Kheap) × (expand_heap wanted h
          ≡ r)
        × (kmalloc fuel size h ≡ some (head_of w.pages + heap_header_size, g))
        × Taken r.1 (phys ++ w.pages) (head_of w.pages ∷ frees) (align size) (head_of w.pages) g
  kmalloc-expands fuel l =
      let n = align size in
      let r = expand_heap wanted h in
      let w = expand_heap-Grew h phys frees wanted k ready no in
      let ok : r.0 ≡ true = w.enough memory in
      let (fit, z, v) = new_head r w w.pages refl ok in
      let here = first_fit-fits (size_of r.1) n (head_of w.pages ∷ frees) (λ e. z (sym fit ∙ e)) in
      let miss : find_fit fuel n h.free_list_head h.blocks ≡ some 0 =
        find_fit-first_fit h n fuel 0 h.free_list_head frees ready.heap.free_list.chain
          (omega (arith, l))
        ∙ ap some none_fits in
      let found : find_fit fuel n r.1.free_list_head r.1.blocks ≡ some (head_of w.pages) =
        find_fit-first_fit r.1 n fuel 0 r.1.free_list_head (head_of w.pages ∷ frees)
          v.free_list.chain (omega (arith, l))
        ∙ ap some fit in
      (
        r,
        w,
        (place n (head_of w.pages) r.1).1,
        refl,
        kmalloc-retry h size fuel positive miss
            ∙ ap (λ b. retry fuel n (b, r.1)) ok
            ∙ retry_found r.1 n fuel (head_of w.pages) found z,
        place-Taken_at r.1 (phys ++ w.pages) (head_of w.pages ∷ frees) (head_of w.pages) n v
            (ap (λ b. has b (head_of w.pages ∷ frees)) (sym fit) ∙ here.0)
            (subst (λ b. n ≤ size_of r.1 b) fit here.1),
      )
