-- ===== src/Heap/Expand.antt =====
-- The loop of `expand_heap`: the pages that it links behind the blocks of the heap.
use solace_os.Base.{
  ℕ, ◌+◌, ◌*◌, ◌≤◌, ◌<◌, ◌≡◌, ◌≢◌, refl, sym, ap, ◌∙◌, subst, inl, inr, true, false, ◌||◌, List, [],
  ◌∷◌, ◌++◌, arith, ◌==◌, Bool-cases, ==_of_ne, ==-ne, ltb,
}
use solace_os.Frames.{page_size, test_bit, alloc_frame}
use solace_os.Frames.Valid.{IsValid}
use solace_os.Frames.Count.{free_frames_all_used}
use solace_os.Frames.Alloc.{frame_address, Allocated, Exhausted, alloc_frame_lem}
use solace_os.Heap.{Kheap, wipe, take_frame, link_frame}
use solace_os.Heap.Chain.{has, has-append}
use solace_os.Heap.Layout.{end_of}
use solace_os.Heap.Valid.{size_of, IsHeap}
use solace_os.Heap.Grow.{Grown, Grown-IsHeap, link_frame-Grown}

-- A valid heap over a valid frame allocator, in which the frames below frame `k` are all in use and all
-- blocks lie in them.
pub record Ready (k : ℕ) (h : Kheap) (phys frees : List ℕ) : Type 0 where
  pub heap : IsHeap h phys frees
  pub frames : IsValid h.pmm
  pub used : (j : ℕ) → j < k → test_bit j h.pmm.frame_bitmap ≡ true
  pub below : (a : ℕ) → has a phys ≡ true → end_of (size_of h) a ≤ frame_address k

take_frame_lem :
    (h : Kheap)
    → ((take_frame h).0 ≡ (alloc_frame h.pmm).0)
      × ((take_frame h).1.pmm ≡ (alloc_frame h.pmm).1)
      × ((a : ℕ)
          → (alloc_frame h.pmm).0 ≢ 0
          → (take_frame h).1.blocks a ≡ wipe (alloc_frame h.pmm).0 page_size h.blocks a)
      × ((alloc_frame h.pmm).0 ≡ 0 → (take_frame h).1.blocks ≡ h.blocks)
unfolding take_frame
take_frame_lem h = (refl, refl, λ a n. rw (==_of_ne (alloc_frame h.pmm).0 0 n) refl, λ e. rw e refl)

take_frame_statics :
    (h : Kheap)
    → ((take_frame h).1.free_list_head ≡ h.free_list_head)
      × ((take_frame h).1.heap_start ≡ h.heap_start)
      × ((take_frame h).1.heap_end ≡ h.heap_end)
unfolding take_frame
take_frame_statics h = (refl, refl, refl)

take_exhausted :
    (h : Kheap) → (alloc_frame h.pmm).0 ≡ 0 → (alloc_frame h.pmm).1 ≡ h.pmm → (take_frame h).1 ≡ h
unfolding take_frame
take_exhausted h e k = rw (e, k) refl

link_frame-pmm : (b : ℕ) (h : Kheap) → (link_frame b h).pmm ≡ h.pmm
unfolding link_frame
link_frame-pmm b h = ground arith

-- The page that a round gets, and the heap with it.
abbrev page_of : Kheap → ℕ
page_of h = (alloc_frame h.pmm).0

abbrev grow : Kheap → Kheap
grow h = link_frame (page_of h) (take_frame h).1

-- A round of the loop: no frame is left, and nothing changes, or a page is linked.
pub data Round (k : ℕ) (h : Kheap) (phys frees : List ℕ) : Type 0 where
  exhausted :
      (take_frame h).0 ≡ 0 → (take_frame h).1 ≡ h → h.pmm.free_memory ≡ 0 → Round k h phys frees
  linked :
      (i b : ℕ)
      → (take_frame h).0 ≡ b
      → b ≢ 0
      → (g : Kheap) → link_frame b (take_frame h).1 ≡ g
      → Grown h phys b g
      → Ready (i + 1) g (phys ++ b ∷ []) frees
      → g.pmm.free_memory + page_size ≡ h.pmm.free_memory
      → Round k h phys frees

module _ (k : ℕ) (h : Kheap) (phys frees : List ℕ) (r : Ready k h phys frees) where
  no_frame_left : Exhausted h.pmm (alloc_frame h.pmm).0 (alloc_frame h.pmm).1 → Round k h phys frees
  no_frame_left x =
      exhausted ((take_frame_lem h).0 ∙ x.null) (take_exhausted h x.null x.kept) (
        r.frames.counted ∙ ap (λ n. n * page_size) (free_frames_all_used h.pmm.frame_bitmap x.full))

  module _ (i : ℕ) (a : Allocated h.pmm i (page_of h) (alloc_frame h.pmm).1) where
    page-ne : page_of h ≢ 0
    page-ne e = omega (arith, e, a.address)

    grow-pmm : (grow h).pmm ≡ (alloc_frame h.pmm).1
    grow-pmm = link_frame-pmm (page_of h) (take_frame h).1 ∙ (take_frame_lem h).1

    reached : k ≤ i
    reached = elim (Bool-cases (ltb i k)) [
      | inl e ↦ let bad : true ≡ false = sym (r.used i (ground (arith, e))) ∙ a.was_free in cc
      | inr e ↦ ground (arith, e)
    ]

    below_page : (c : ℕ) → has c phys ≡ true → end_of (size_of h) c ≤ page_of h
    below_page c m = omega (arith, r.below c m, reached, a.address)

    grow-Grown : Grown h phys (page_of h) (grow h)
    grow-Grown =
        link_frame-Grown h (take_frame h).1 (page_of h) phys frees page-ne r.heap below_page
          (λ c. (take_frame_lem h).2 c page-ne) (take_frame_statics h)

    now_used : (j : ℕ) → j < i + 1 → ((i == j) || test_bit j h.pmm.frame_bitmap) ≡ true
    now_used j l = elim (Bool-cases (i == j)) [
      | inl e ↦ rw e
      | inr e ↦ rw e (a.lowest j (omega (arith, ==-ne i j e, l)))
    ]

    now_below :
        (c : ℕ)
        → has c (phys ++ page_of h ∷ []) ≡ true
        → end_of (size_of (grow h)) c ≤ frame_address (i + 1)
    now_below c m = elim (Bool-cases (has c phys)) [
      | inl e ↦ rw ((grow-Grown.kept c e).0) (omega (arith, below_page c e, a.address))
      | inr e ↦
          let f : c ≡ page_of h = ground (arith, has-append c phys (page_of h ∷ []), m, e) in
          rw (f, grow-Grown.page.0) (omega (arith, a.address))
    ]

    grow-Ready : Ready (i + 1) (grow h) (phys ++ page_of h ∷ []) frees
    grow-Ready = record {
      heap =
          Grown-IsHeap h (grow h) phys frees (page_of h) r.heap below_page page-ne
            (omega (arith, a.address, a.managed)) grow-Grown;
      frames = subst IsValid (sym grow-pmm) a.valid;
      used = λ j l. rw grow-pmm (a.bits j ∙ now_used j l);
      below = now_below;
    }

    page_linked : Round k h phys frees
    page_linked =
        linked i (page_of h) (take_frame_lem h).0 page-ne (grow h) refl grow-Grown grow-Ready
          (rw grow-pmm (a.free_bytes))

  pub round : Round k h phys frees
  round = elim (alloc_frame_lem h.pmm r.frames) [
    | inl x ↦ no_frame_left x
    | inr (i, a) ↦ page_linked i a
  ]
