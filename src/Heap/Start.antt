-- ===== src/Heap/Start.antt =====
-- `expand_heap` where it does not merge, and the heap that `kheap_init` makes.
use solace_os.Base.{
  ℕ, ◌*◌, ◌-◌, ◌≤◌, ◌≡◌, ◌≢◌, refl, sym, ap, ◌∙◌, ◌⊎◌, subst, inl, inr, Bool, true, false, not,
  List, [], ◌∷◌, ◌++◌, arith, ◌==◌, if◌then◌else◌, length, Bool-cases, ==_self, ==_of_ne,
}
use solace_os.Frames.{page_size}
use solace_os.Frames.Valid.{IsValid}
use solace_os.Heap.{
  Kheap, heap_header_size, add_to_free_list, merge_back, pages_for, expand_loop, expand_heap,
  kheap_init,
}
use solace_os.Heap.Chain.{
  has, has-append, has-here, has-ne, has-last_of, Distinct-middle, last_of, head_of, prev_in-Chain,
}
use solace_os.Heap.FreeList.{next_of, prev_of, add-SameLayout, is_free-add_to_free_list}
use solace_os.Heap.Layout.{Layout-Distinct}
use solace_os.Heap.Valid.{size_of, is_free_at, IsHeap, add_to_free_list-IsHeap}
use solace_os.Heap.Expand.{Ready}
use solace_os.Heap.Pages.{Expanded, expand_loop-Expanded}

-- The last block is in use, or there is none.
abbrev pub NoMerge : Kheap → List ℕ → Type 0
NoMerge h phys = (last_of 0 phys ≡ 0) ⊎ (is_free_at h (last_of 0 phys) ≡ false)

pub merge_back_null : (b : ℕ) (h : Kheap) → prev_of h b ≡ 0 → merge_back b h ≡ (b, h)
unfolding merge_back
merge_back_null b h e = rw (merge_back, e) refl

pub merge_back_used :
    (b : ℕ) (h : Kheap) → is_free_at h (prev_of h b) ≡ false → merge_back b h ≡ (b, h)
unfolding merge_back
merge_back_used b h e = elim (Bool-cases (prev_of h b == 0)) [
  | inl z ↦ rw (merge_back, z) refl
  | inr z ↦ rw (merge_back, z, e) refl
]

-- `expand_heap` behind its loop.
unfoldable pub put_on_list : ℕ × Kheap → Bool × Kheap
put_on_list (block, h) = (true, add_to_free_list block h)

unfoldable pub after_loop : Bool × ℕ × Kheap → Bool × Kheap
unfolding put_on_list
after_loop (all, b, h) =
    if not all then (false, h) else if b == 0 then (false, h) else put_on_list (merge_back b h)

pub expand_heap-after_loop :
    (m : ℕ) (h : Kheap) → expand_heap m h ≡ after_loop (expand_loop (pages_for m) 0 h)
unfolding expand_heap after_loop
expand_heap-after_loop m h = refl

after_loop_done :
    (b : ℕ) (g : Kheap)
    → b ≢ 0
    → merge_back b g ≡ (b, g)
    → after_loop (true, b, g) ≡ (true, add_to_free_list b g)
unfolding after_loop
after_loop_done b g n k = rw (after_loop, ==_of_ne b 0 n) (ap put_on_list k)

pub last_cases : (xs : List ℕ) → (last_of 0 xs ≡ 0) ⊎ (has (last_of 0 xs) xs ≡ true)
last_cases [] = inl refl
last_cases (x ∷ xs) = inr (has-last_of x xs)

-- What `expand_heap` has done: `pages` are the new blocks, the first of which is on the free list if it
-- succeeds.
pub record Grew (h : Kheap) (phys frees : List ℕ) (m : ℕ) (r : Bool × Kheap) : Type 0 where
  pub pages : List ℕ
  pub heap : IsHeap r.1 (phys ++ pages) (if r.0 then head_of pages ∷ frees else frees)
  pub count : r.0 ≡ true → length pages ≡ pages_for m
  pub enough : pages_for m * page_size ≤ h.pmm.free_memory → r.0 ≡ true
  pub page :
      (a : ℕ)
      → has a pages ≡ true
      → (size_of r.1 a ≡ page_size - heap_header_size) × (is_free_at r.1 a ≡ true)
  pub kept :
      (a : ℕ)
      → has a phys ≡ true
      → (size_of r.1 a ≡ size_of h a) × (is_free_at r.1 a ≡ is_free_at h a)

module _ (h : Kheap) (phys frees : List ℕ) (m k : ℕ) (ready : Ready k h phys frees)
    (no : NoMerge h phys) where
  failed-Grew :
      (b : ℕ) (g : Kheap)
      → Expanded h phys frees (pages_for m) 0 (false, b, g)
      → Grew h phys frees m (false, g)
  failed-Grew b g x = record {
    pages = x.pages;
    heap = x.ready.heap;
    count = λ e. cc;
    enough = x.enough;
    page = λ a i. let l = x.loose a i in (l.0, l.1);
    kept = λ a i. let l = x.kept a i in (l.0, l.1);
  }

  not_merged :
      (p : ℕ) (g : Kheap)
      → prev_of g p ≡ last_of 0 phys
      → ((a : ℕ) → has a phys ≡ true → is_free_at g a ≡ is_free_at h a)
      → merge_back p g ≡ (p, g)
  not_merged p g e same = elim no [
    | inl z ↦ merge_back_null p g (e ∙ z)
    | inr f ↦ elim (last_cases phys) [
      | inl z ↦ merge_back_null p g (e ∙ z)
      | inr i ↦ merge_back_used p g (ap (is_free_at g) e ∙ same (last_of 0 phys) i ∙ f)
    ]
  ]

  done-Grew :
      (p : ℕ) (ps : List ℕ) (g : Kheap)
      → (x : Expanded h phys frees (pages_for m) 0 (true, p, g)) → x.pages ≡ p ∷ ps
      → (merge_back p g ≡ (p, g)) × Grew h phys frees m (true, add_to_free_list p g)
  done-Grew p ps g x e =
      let v : IsHeap g (phys ++ p ∷ ps) frees =
        subst (λ l. IsHeap g (phys ++ l) frees) e x.ready.heap in
      let apart =
        Distinct-middle p phys ps (Layout-Distinct (size_of g) (phys ++ p ∷ ps) v.layout) in
      let out : has p frees ≡ false = elim (Bool-cases (has p frees)) [
        | inl i ↦ let bad : true ≡ false = sym (ready.heap.listed p i).0 ∙ apart.0 in cc
        | inr o ↦ o
      ] in
      let same = add-SameLayout p g in
      (
        not_merged p g (prev_in-Chain (next_of g) (prev_of g) p ps phys 0 g.heap_start v.chain)
            (λ a i. (x.kept a i).1),
        record {
          pages = p ∷ ps;
          heap = add_to_free_list-IsHeap g (phys ++ p ∷ ps) frees v p (has-here p phys ps) out;
          count = λ f. ap length (sym e) ∙ x.count f;
          enough = x.enough;
          page = λ a i.
              let l = x.loose a (ap (has a) e ∙ i) in
              (same.size a ∙ l.0, is_free-add_to_free_list p g a ∙ ground (arith, l.1));
          kept = λ a i.
              let l = x.kept a i in
              (
                same.size a ∙ l.0,
                is_free-add_to_free_list p g a
                    ∙ rw (==_of_ne p a (λ f. has-ne p a phys apart.0 i f)) (l.1),
              );
        },
      )

  some_pages :
      (p : ℕ) (g : Kheap) (ps : List ℕ)
      → (x : Expanded h phys frees (pages_for m) 0 (true, p, g)) → x.pages ≡ ps
      → Grew h phys frees m (after_loop (true, p, g))
  some_pages p g [] x e =
      let none_left : 0 ≡ pages_for m = ap length (sym e) ∙ x.count refl in
      absurd (ground (arith, none_left))
  some_pages p g (q ∷ ps) x e =
      let is : p ≡ q = x.first ∙ ap head_of e in
      let (n, w) = done-Grew p ps g x (e ∙ ap (λ c. c ∷ ps) (sym is)) in
      let no_null : has 0 x.pages ≡ false =
        ground (arith, has-append 0 phys x.pages, x.ready.heap.non_null) in
      let z : p ≢ 0 = λ f.
        has-ne 0 q (q ∷ ps) (sym (ap (has 0) e) ∙ no_null) (rw (==_self q)) (sym (sym is ∙ f)) in
      rw (after_loop_done p g z n) w

  grew :
      (r : Bool × ℕ × Kheap)
      → Expanded h phys frees (pages_for m) 0 r
      → Grew h phys frees m (after_loop r)
  unfolding after_loop
  grew (false, b, g) x = failed-Grew b g x
  grew (true, b, g) x = some_pages b g x.pages x refl

  -- Where the last block is not free, `expand_heap` keeps the invariant of the heap: its pages follow
  -- the old blocks, and the first of them is put on the free list.
  pub expand_heap-Grew : Grew h phys frees m (expand_heap m h)
  expand_heap-Grew = rw (expand_heap-after_loop m h) (
      grew (expand_loop (pages_for m) 0 h)
        (expand_loop-Expanded (pages_for m) 0 k h phys frees ready))

-- The state in which `kheap_init` calls `expand_heap`.
abbrev pub empty : Kheap → Kheap
empty h = record h { free_list_head = 0; heap_start = 0; heap_end = 0 }

pub empty-Ready : (h : Kheap) → IsValid h.pmm → Ready 0 (empty h) [] []
empty-Ready h v = record {
  heap = record {
    chain = refl;
    last = refl;
    layout = tt;
    fits = λ a i. cc;
    non_null = refl;
    free_list = record { chain = refl; distinct = tt; non_null = refl };
    listed = λ a i. cc;
  };
  frames = v;
  used = λ j l. absurd (omega (arith, l));
  below = λ a i. cc;
}

-- The heap that `kheap_init` makes from a valid frame allocator.
pub kheap_init-Grew :
    (h : Kheap)
    → IsValid h.pmm
    → (r : Bool × Kheap) × (kheap_init h ≡ r.1) × Grew (empty h) [] [] (page_size * 4) r
unfolding kheap_init
kheap_init-Grew h v = (
  expand_heap (page_size * 4) (empty h),
  refl,
  expand_heap-Grew (empty h) [] [] (page_size * 4) 0 (empty-Ready h v) (inl refl),
)
