-- ===== src/Heap/Dropped.antt =====
-- `expand_heap` when the last block is free but was never put on the free list.
use solace_os.Base.{
  ℕ, ◌*◌, ◌≤◌, ◌≡◌, ◌≢◌, refl, sym, ap, ◌∙◌, subst, inl, inr, Bool, true, false, List, [], ◌∷◌,
  ◌++◌, length, arith, Bool-cases, ==_of_ne,
}
use solace_os.Frames.{page_size}
use solace_os.Heap.{
  Kheap, remove_from_free_list, absorb, merge_back, add_to_free_list, pages_for, expand_loop,
  expand_heap,
}
use solace_os.Heap.Chain.{has, has-here, has-ne, last_of, head_of, prev_in-Chain}
use solace_os.Heap.FreeList.{IsFreeList, next_of, prev_of, add_to_free_list-IsFreeList}
use solace_os.Heap.Valid.{is_free_at, IsHeap}
use solace_os.Heap.Expand.{Ready}
use solace_os.Heap.Pages.{Expanded, expand_loop-Expanded}
use solace_os.Heap.Start.{after_loop, put_on_list, expand_heap-after_loop, last_cases}
use solace_os.Heap.MergeBack.{merge_back_free, head-dropped}
use solace_os.Heap.Tail.{IsTail, IsUnlinked}
use solace_os.Heap.Total.{expand_heap-Bigger}

head-absorb : (l r : ℕ) (h : Kheap) → (absorb l r h).free_list_head ≡ h.free_list_head
unfolding absorb
head-absorb l r h = ground arith

-- Only `l` is on the free list behind a merge that has taken it off without being on it.
only_merged :
    (l p : ℕ) (g : Kheap)
    → l ≢ 0
    → IsUnlinked g l
    → IsFreeList (add_to_free_list l (absorb l p (remove_from_free_list l g))) (l ∷ [])
only_merged l p g z u =
    add_to_free_list-IsFreeList l (absorb l p (remove_from_free_list l g)) []
      (record {
        chain = head-absorb l p (remove_from_free_list l g) ∙ head-dropped l g u;
        distinct = tt;
        non_null = refl;
      })
      z refl

module _ (h : Kheap) (phys frees : List ℕ) (m k : ℕ) (ready : Ready k h phys frees)
    (some_block : last_of 0 phys ≢ 0) (free : is_free_at h (last_of 0 phys) ≡ true)
    (unlinked : IsUnlinked h (last_of 0 phys)) where
  abbrev Dropped : Bool × Kheap → Type 0
  Dropped r = r.0 ≡ true → IsFreeList r.1 (last_of 0 phys ∷ [])

  member : has (last_of 0 phys) phys ≡ true
  member = elim (last_cases phys) [ inl z ↦ absurd (some_block z) | inr i ↦ i ]

  put-Dropped :
      (p : ℕ) (g : Kheap)
      → merge_back p g
        ≡ (last_of 0 phys, absorb (last_of 0 phys) p (remove_from_free_list (last_of 0 phys) g))
      → IsUnlinked g (last_of 0 phys)
      → p ≢ 0
      → Dropped (after_loop (true, p, g))
  unfolding after_loop put_on_list
  put-Dropped p g e u z =
      rw (==_of_ne p 0 z, e) (λ _. only_merged (last_of 0 phys) p g some_block u)

  done-Dropped :
      (p : ℕ) (g : Kheap) (x : Expanded h phys frees (pages_for m) 0 (true, p, g)) (pages : List ℕ)
      → x.pages ≡ pages
      → Dropped (after_loop (true, p, g))
  done-Dropped p g x [] e =
      let none_left : 0 ≡ pages_for m = ap length (sym e) ∙ x.count refl in
      absurd (ground (arith, none_left))
  done-Dropped p g x (q ∷ ps) e =
      let is : q ≡ p = sym (x.first ∙ ap head_of e) in
      let at : x.pages ≡ p ∷ ps = e ∙ ap (λ c. c ∷ ps) is in
      let v : IsHeap g (phys ++ p ∷ ps) frees =
        subst (λ xs. IsHeap g (phys ++ xs) frees) at x.ready.heap in
      let l = x.kept (last_of 0 phys) member in
      put-Dropped p g
        (merge_back_free p (last_of 0 phys) g
          (prev_in-Chain (next_of g) (prev_of g) p ps phys 0 g.heap_start v.chain) some_block
          (l.1 ∙ free))
        (l.2 ∙ unlinked.0, l.3 ∙ unlinked.1)
        (λ z. has-ne 0 p (phys ++ p ∷ ps) v.non_null (has-here p phys ps) (sym z))

  after-Dropped :
      (r : Bool × ℕ × Kheap) → Expanded h phys frees (pages_for m) 0 r → Dropped (after_loop r)
  unfolding after_loop
  after-Dropped (false, nb, g) x = λ e. cc
  after-Dropped (true, p, g) x = done-Dropped p g x x.pages refl

  expanded-Dropped : Dropped (expand_heap m h)
  expanded-Dropped = rw (expand_heap-after_loop m h) (
      after-Dropped (expand_loop (pages_for m) 0 h)
        (expand_loop-Expanded (pages_for m) 0 k h phys frees ready))

  tail : IsTail h frees (last_of 0 phys)
  tail = elim (Bool-cases (has (last_of 0 phys) frees)) [
    | inl i ↦ inr (inr (inl i))
    | inr o ↦ inr (inr (inr (o, unlinked)))
  ]

  -- If the last block is marked free but has no links of the free list, as the pages of an expansion
  -- behind the first have none, an expansion for which there is memory leaves that block alone on the
  -- free list, whatever was on it.
  pub expand_heap-drops :
      pages_for m * page_size ≤ h.pmm.free_memory
      → ((expand_heap m h).0 ≡ true) × IsFreeList (expand_heap m h).1 (last_of 0 phys ∷ [])
  expand_heap-drops memory =
      let w = expand_heap-Bigger h phys frees m k (record { ready = ready; tail = tail }) in
      (w.enough memory, expanded-Dropped (w.enough memory))
