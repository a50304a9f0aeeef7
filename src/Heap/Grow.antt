-- ===== src/Heap/Grow.antt =====
-- A frame that `expand_heap` links behind the last block.
use solace_os.Base.{
  ℕ, ◌+◌, ◌-◌, ◌≤◌, ◌≡◌, ◌≢◌, refl, sym, ap, ◌∙◌, inl, inr, true, false, List, [], ◌∷◌, ◌++◌, arith,
  ◌==◌, if◌then◌else◌, Bool-cases, ==_of_ne,
}
use solace_os.Memory.{in_range}
use solace_os.Frames.{page_size, pmm_max_address}
use solace_os.Heap.{Kheap, heap_header_size, zero_block, wipe, link_frame}
use solace_os.Heap.Chain.{
  has, last_of, last_of-append, has-append, Chain-agree, has-ne, has-last_of,
}
use solace_os.Heap.Links.{head_after}
use solace_os.Heap.FreeList.{next_of, prev_of, next_free_of, prev_free_of}
use solace_os.Heap.Layout.{end_of, Layout-agree, Layout-Distinct}
use solace_os.Heap.Valid.{size_of, is_free_at, IsHeap}
use solace_os.Heap.Snoc.{Chain-snoc, Layout-snoc}

-- `g` is `h` with a page at `b` behind the blocks `phys`, marked free but not on the free list.
pub record Grown (h : Kheap) (phys : List ℕ) (b : ℕ) (g : Kheap) : Type 0 where
  pub kept :
      (a : ℕ)
      → has a phys ≡ true
      → (size_of g a ≡ size_of h a)
        × (is_free_at g a ≡ is_free_at h a)
        × (next_free_of g a ≡ next_free_of h a)
        × (prev_free_of g a ≡ prev_free_of h a)
  pub next :
      (a : ℕ) → has a phys ≡ true → next_of g a ≡ (if last_of 0 phys == a then b else next_of h a)
  pub prev : (a : ℕ) → has a phys ≡ true → prev_of g a ≡ prev_of h a
  pub page :
      (size_of g b ≡ page_size - heap_header_size)
      × (is_free_at g b ≡ true)
      × (next_free_of g b ≡ 0)
      × (prev_free_of g b ≡ 0)
  pub page_next : next_of g b ≡ 0
  pub page_prev : prev_of g b ≡ last_of 0 phys
  pub heap_start : g.heap_start ≡ head_after phys b h.heap_start
  pub heap_end : g.heap_end ≡ b
  pub head : g.free_list_head ≡ h.free_list_head

-- The blocks of a valid heap that lie below a page keep its invariant when the page is linked.
pub Grown-IsHeap :
    (h g : Kheap) (phys frees : List ℕ) (b : ℕ)
    → IsHeap h phys frees
    → ((a : ℕ) → has a phys ≡ true → end_of (size_of h) a ≤ b)
    → b ≢ 0
    → b + page_size ≤ pmm_max_address
    → Grown h phys b g
    → IsHeap g (phys ++ b ∷ []) frees
Grown-IsHeap h g phys frees b v below n top w = record {
  chain = rw (w.heap_start) (
      Chain-snoc (next_of h) (prev_of h) (next_of g) (prev_of g) b phys 0 h.heap_start v.chain
        (Layout-Distinct (size_of h) phys v.layout) n (λ a i. (w.next a i, w.prev a i)) w.page_next
        w.page_prev);
  last = w.heap_end ∙ sym (last_of-append 0 b phys []);
  layout =
      Layout-snoc (size_of g) b phys
        (Layout-agree (size_of h) (size_of g) phys v.layout (λ a i. (w.kept a i).0))
        (λ a i. rw ((w.kept a i).0) (below a i));
  fits = λ a i. elim (Bool-cases (has a phys)) [
    | inl e ↦ rw ((w.kept a e).0) (v.fits a e)
    | inr e ↦ let f = only a i e in rw (f, w.page.0) (omega (arith, top))
  ];
  non_null = has-append 0 phys (b ∷ []) ∙ ground (arith, v.non_null, n);
  free_list = record {
    chain = rw (w.head) (
        Chain-agree (next_free_of h) (prev_free_of h) (next_free_of g) (prev_free_of g) 0
          h.free_list_head frees v.free_list.chain
          (λ a i. let k = w.kept a (v.listed a i).0 in (k.2, k.3)));
    distinct = v.free_list.distinct;
    non_null = v.free_list.non_null;
  };
  listed = λ a i.
      let (j, m) = v.listed a i in
      (has-append a phys (b ∷ []) ∙ ground (arith, j), (w.kept a j).1 ∙ m);
}
  where
    only : (a : ℕ) → has a (phys ++ b ∷ []) ≡ true → has a phys ≡ false → a ≡ b
    only a i e = ground (arith, has-append a phys (b ∷ []), i, e)

module _ (b : ℕ) (h : Kheap) where
  -- The blocks other than the page.
  link_others :
      (a : ℕ)
      → a ≢ b
      → (size_of (link_frame b h) a ≡ size_of h a)
        × (is_free_at (link_frame b h) a ≡ is_free_at h a)
        × (next_free_of (link_frame b h) a ≡ next_free_of h a)
        × (prev_free_of (link_frame b h) a ≡ prev_free_of h a)
        × (prev_of (link_frame b h) a ≡ prev_of h a)
  unfolding link_frame
  link_others a n = (
    ground (arith, n),
    ground (arith, n),
    ground (arith, n),
    ground (arith, n),
    ground (arith, n),
  )

  link_next :
      (a : ℕ)
      → a ≢ b
      → a ≢ 0
      → next_of (link_frame b h) a ≡ (if h.heap_end == a then b else next_of h a)
  unfolding link_frame
  link_next a n z = ground (arith, n, z)

  -- The page.
  link_page :
      h.heap_end ≢ b
      → (size_of (link_frame b h) b ≡ page_size - heap_header_size)
        × (is_free_at (link_frame b h) b ≡ true)
        × (next_free_of (link_frame b h) b ≡ next_free_of h b)
        × (prev_free_of (link_frame b h) b ≡ prev_free_of h b)
        × (next_of (link_frame b h) b ≡ 0)
        × (prev_of (link_frame b h) b ≡ h.heap_end)
  unfolding link_frame
  link_page n = (
    ground (arith, n),
    ground (arith, n),
    ground (arith, n),
    ground (arith, n),
    ground (arith, n),
    ground (arith, n),
  )

  link_statics :
      ((link_frame b h).heap_start ≡ (if h.heap_end == 0 then b else h.heap_start))
      × ((link_frame b h).heap_end ≡ b)
      × ((link_frame b h).free_list_head ≡ h.free_list_head)
      × ((link_frame b h).pmm ≡ h.pmm)
  unfolding link_frame
  link_statics = (ground arith, ground arith, ground arith, ground arith)

start_after :
    (b p : ℕ) (phys : List ℕ)
    → has 0 phys ≡ false
    → (if last_of 0 phys == 0 then b else p) ≡ head_after phys b p
start_after b p [] o = refl
start_after b p (x ∷ xs) o =
    rw (
      ==_of_ne (last_of x xs) 0
        (λ e. has-ne 0 (last_of x xs) (x ∷ xs) o (has-last_of x xs) (sym e)))

last_other : (b : ℕ) (ys : List ℕ) → b ≢ 0 → ((a : ℕ) → has a ys ≡ true → a ≢ b) → last_of 0 ys ≢ b
last_other b [] n o = λ e. n (sym e)
last_other b (y ∷ ys) n o = o (last_of y ys) (has-last_of y ys)

-- `link_frame`, when the page has been wiped and lies behind all blocks.
pub link_frame-Grown :
    (h h1 : Kheap) (b : ℕ) (phys frees : List ℕ)
    → b ≢ 0
    → IsHeap h phys frees
    → ((a : ℕ) → has a phys ≡ true → end_of (size_of h) a ≤ b)
    → ((a : ℕ) → h1.blocks a ≡ wipe b page_size h.blocks a)
    → (h1.free_list_head ≡ h.free_list_head)
      × (h1.heap_start ≡ h.heap_start)
      × (h1.heap_end ≡ h.heap_end)
    → Grown h phys b (link_frame b h1)
link_frame-Grown h h1 b phys frees n v below blocks same =
    let page = link_page b h1 (λ e. last_other b phys n other (sym end_is ∙ e)) in
    let statics = link_statics b h1 in
    record {
      kept = λ a i.
          let k = link_others b h1 a (other a i) in
          (
            k.0 ∙ ap (λ r. r.size) (old a i),
            k.1 ∙ ap (λ r. r.is_free) (old a i),
            k.2 ∙ ap (λ r. r.next_free) (old a i),
            k.3 ∙ ap (λ r. r.prev_free) (old a i),
          );
      next = λ a i.
          link_next b h1 a (other a i) (λ e. has-ne 0 a phys v.non_null i (sym e))
          ∙ rw (same.2, v.last, old a i);
      prev = λ a i. (link_others b h1 a (other a i)).4 ∙ ap (λ r. r.prev) (old a i);
      page = (
        page.0,
        page.1,
        page.2 ∙ ap (λ r. r.next_free) fresh,
        page.3 ∙ ap (λ r. r.prev_free) fresh,
      );
      page_next = page.4;
      page_prev = page.5 ∙ end_is;
      heap_start = statics.0 ∙ rw (end_is, same.1) (start_after b h.heap_start phys v.non_null);
      heap_end = statics.1;
      head = statics.2 ∙ same.0;
    }
  where
    other : (a : ℕ) → has a phys ≡ true → a ≢ b
    other a i e = omega (arith, below a i, e)

    old : (a : ℕ) → has a phys ≡ true → h1.blocks a ≡ h.blocks a
    old a i =
        let out : in_range b page_size a ≡ false = ground (arith, below a i) in blocks a ∙ rw out

    end_is : h1.heap_end ≡ last_of 0 phys
    end_is = same.2 ∙ v.last

    fresh : h1.blocks b ≡ zero_block
    fresh = let inside : in_range b page_size b ≡ true = ground arith in blocks b ∙ rw inside
