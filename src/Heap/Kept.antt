-- ===== src/Heap/Kept.antt =====
-- The heap takes frames and never gives one back.
use solace_os.Base.{
  ◌+◌, ◌*◌, ℕ, zero, suc, ◌≡◌, refl, sym, ap, ◌∙◌, subst, inl, inr, Bool, true, false, not, ◌&&◌,
  Option, none, some, ◌==◌, if◌then◌else◌, leb, add64, arith, Bool-cases, Option-cases, ==-eq,
  ==-ne, ◌||◌, sub64,
}
use solace_os.Frames.{page_size, Pmm}
use solace_os.Frames.Valid.{IsValid}
use solace_os.Frames.Kept.{Kept, Kept-refl, Kept-trans, Kept-write, alloc_frame-Kept}
use solace_os.Memory.{memset}
use solace_os.Heap.Start.{put_on_list, after_loop, expand_heap-after_loop}
use solace_os.Heap.Retry.{retry, kmalloc-retry}
use solace_os.Heap.Malloc.{kmalloc_hit}
use solace_os.Heap.{
  Kheap, heap_header_size, heap_min_block_size, modify, clear, align, add_to_free_list,
  remove_from_free_list, take_frame, link_frame, expand_loop, absorb, merge_back, pages_for,
  expand_heap, coalesce_forward, coalesce_backward, coalesce, kheap_init, find_fit, carve, split,
  place, kmalloc, kfree,
}

pub add-pmm : (b : ℕ) (h : Kheap) → (add_to_free_list b h).pmm ≡ h.pmm
unfolding add_to_free_list
add-pmm b h = ground arith

pub remove-pmm : (b : ℕ) (h : Kheap) → (remove_from_free_list b h).pmm ≡ h.pmm
unfolding remove_from_free_list
remove-pmm b h = ground arith

pub absorb-pmm : (l r : ℕ) (h : Kheap) → (absorb l r h).pmm ≡ h.pmm
unfolding absorb
absorb-pmm l r h = ground arith

link-pmm : (b : ℕ) (h : Kheap) → (link_frame b h).pmm ≡ h.pmm
unfolding link_frame
link-pmm b h = ground arith

carve-pmm : (n b : ℕ) (h : Kheap) → (carve n b h).pmm ≡ h.pmm
unfolding carve
carve-pmm n b h = ground arith

-- The two heaps share a frame allocator up to what `Kept` allows.
abbrev pub KeptHeap : Kheap → Kheap → Type 0
KeptHeap h g = Kept h.pmm g.pmm

-- `f` keeps the frames.
abbrev pub Keeps : (Kheap → Kheap) → Type 0
Keeps f = (h : Kheap) → IsValid h.pmm → KeptHeap h (f h)

same-Kept : (h g : Kheap) → g.pmm ≡ h.pmm → IsValid h.pmm → KeptHeap h g
same-Kept h g e v = subst (Kept h.pmm) (sym e) (Kept-refl h.pmm v)

then-Kept : (f g : Kheap → Kheap) → Keeps f → Keeps g → Keeps (λ h. g (f h))
then-Kept f g k l h v =
    let p = k h v in Kept-trans h.pmm (f h).pmm (g (f h)).pmm p (l (f h) p.valid)

clear-Kept : (s n : ℕ) → Keeps (clear s n)
unfolding clear
clear-Kept s n h v = Kept-write h.pmm (memset s 0 n h.pmm.mem) v

take-Kept : Keeps (λ h. (take_frame h).1)
unfolding take_frame
take-Kept h v = alloc_frame-Kept h.pmm v

expand_loop-Kept : (n b : ℕ) → Keeps (λ h. (expand_loop n b h).2)
unfolding expand_loop
expand_loop-Kept zero b h v = Kept-refl h.pmm v
expand_loop-Kept (suc n) b h v = elim (Bool-cases ((take_frame h).0 == 0)) [
  | inl e ↦ rw e (take-Kept h v)
  | inr e ↦ rw e (
      then-Kept (λ g. (take_frame g).1)
        (λ g.
          (expand_loop n (if b == 0 then (take_frame h).0 else b)
            (link_frame (take_frame h).0 g)).2)
        take-Kept
        (then-Kept (link_frame (take_frame h).0)
          (λ g. (expand_loop n (if b == 0 then (take_frame h).0 else b) g).2)
          (λ g w. same-Kept g (link_frame (take_frame h).0 g) (link-pmm (take_frame h).0 g) w)
          (expand_loop-Kept n (if b == 0 then (take_frame h).0 else b)))
        h v)
]

merge_back-pmm : (b : ℕ) (h : Kheap) → (merge_back b h).1.pmm ≡ h.pmm
unfolding merge_back
merge_back-pmm b h =
    elim (Bool-cases (not ((h.blocks b).prev == 0) && (h.blocks (h.blocks b).prev).is_free)) [
      | inl e ↦ rw e (
          absorb-pmm (h.blocks b).prev b (remove_from_free_list (h.blocks b).prev h)
          ∙ remove-pmm (h.blocks b).prev h)
      | inr e ↦ rw e refl
    ]

after_loop-pmm : (r : Bool × ℕ × Kheap) → (after_loop r).1.pmm ≡ r.2.pmm
unfolding after_loop put_on_list
after_loop-pmm (false, b, h) = refl
after_loop-pmm (true, b, h) = elim (Bool-cases (b == 0)) [
  | inl e ↦ rw e refl
  | inr e ↦ rw e (add-pmm (merge_back b h).0 (merge_back b h).1 ∙ merge_back-pmm b h)
]

pub expand_heap-Kept : (m : ℕ) → Keeps (λ h. (expand_heap m h).1)
expand_heap-Kept m h v =
    let e : (expand_heap m h).1.pmm ≡ (expand_loop (pages_for m) 0 h).2.pmm =
      ap {B = Pmm} (λ r. r.1.pmm) (expand_heap-after_loop m h)
      ∙ after_loop-pmm (expand_loop (pages_for m) 0 h) in
    subst (Kept h.pmm) (sym e) (expand_loop-Kept (pages_for m) 0 h v)

pub kheap_init-Kept : Keeps kheap_init
unfolding kheap_init
kheap_init-Kept h v =
    expand_heap-Kept (page_size * 4) (record h { free_list_head = 0; heap_start = 0; heap_end = 0 })
      v

split-pmm : (n b : ℕ) (h : Kheap) → (split n b h).pmm ≡ h.pmm
unfolding split
split-pmm n b h = add-pmm (b + heap_header_size + n) (carve n b h) ∙ carve-pmm n b h

-- The block that `place` clears, before it does.
fitted-pmm :
    (n b : ℕ) (g : Kheap)
    → (if leb (add64 n heap_min_block_size) (g.blocks b).size then split n b g else g).pmm ≡ g.pmm
fitted-pmm n b g = elim (Bool-cases (leb (add64 n heap_min_block_size) (g.blocks b).size)) [
  | inl e ↦ rw e (split-pmm n b g)
  | inr e ↦ rw e refl
]

pub place-Kept : (n b : ℕ) → Keeps (λ h. (place n b h).1)
unfolding place
place-Kept n b h v =
    let taken = remove_from_free_list b h in
    let fitted =
      if leb (add64 n heap_min_block_size) (taken.blocks b).size then split n b taken else taken in
    let used = modify b (λ x. record x { is_free = false }) fitted in
    let same : fitted.pmm ≡ h.pmm = fitted-pmm n b taken ∙ remove-pmm b h in
    let k =
      clear-Kept (b + heap_header_size) (used.blocks b).size used (subst IsValid (sym same) v) in
    subst (λ t. Kept t (place n b h).1.pmm) same k

abbrev pub KeptResult : Kheap → Option (ℕ × Kheap) → Type 0
KeptResult h none = Unit {0}
KeptResult h (some (p, g)) = KeptHeap h g

retry-Kept :
    (fuel n : ℕ) (h : Kheap) (r : Bool × Kheap) → KeptHeap h r.1 → KeptResult h (retry fuel n r)
unfolding retry
retry-Kept fuel n h (false, g) k = k
retry-Kept fuel n h (true, g) k = elim (Option-cases (find_fit fuel n g.free_list_head g.blocks)) [
  | inl e ↦ rw e tt
  | inr (fit, e) ↦ elim (Bool-cases (fit == 0)) [
    | inl z ↦ rw (e, z) k
    | inr z ↦
        rw (e, z) (Kept-trans h.pmm g.pmm (place n fit g).1.pmm k (place-Kept n fit g k.valid))
  ]
]

pub kmalloc_null :
    (h : Kheap) (size fuel : ℕ) → (size == 0) ≡ true → kmalloc fuel size h ≡ some (0, h)
unfolding kmalloc
kmalloc_null h size fuel e = rw e refl

pub kmalloc_stuck :
    (h : Kheap) (size fuel : ℕ)
    → (size == 0) ≡ false
    → find_fit fuel (align size) h.free_list_head h.blocks ≡ none
    → kmalloc fuel size h ≡ none
unfolding kmalloc
kmalloc_stuck h size fuel e f = rw (e, f) refl

-- A merge clears a header at last.
merged-Kept :
    (r l c n : ℕ) → Keeps (λ h. clear c heap_header_size (absorb l n (remove_from_free_list r h)))
merged-Kept r l c n h v =
    let g = absorb l n (remove_from_free_list r h) in
    let same : g.pmm ≡ h.pmm = absorb-pmm l n (remove_from_free_list r h) ∙ remove-pmm r h in
    subst (λ t. Kept t (clear c heap_header_size g).pmm) same
      (clear-Kept c heap_header_size g (subst IsValid (sym same) v))

-- `kmalloc` frees no frame.
pub kmalloc-Kept : (fuel size : ℕ) (h : Kheap) → IsValid h.pmm → KeptResult h (kmalloc fuel size h)
kmalloc-Kept fuel size h v = elim (Bool-cases (size == 0)) [
  | inl z ↦ rw (kmalloc_null h size fuel z) (Kept-refl h.pmm v)
  | inr z ↦ elim (Option-cases (find_fit fuel (align size) h.free_list_head h.blocks)) [
    | inl e ↦ rw (kmalloc_stuck h size fuel z e) tt
    | inr (fit, e) ↦ elim (Bool-cases (fit == 0)) [
      | inl f ↦ rw (kmalloc-retry h size fuel (==-ne size 0 z) (e ∙ ap some (==-eq fit 0 f))) (
          retry-Kept fuel (align size) h (expand_heap (add64 (align size) heap_header_size) h)
            (expand_heap-Kept (add64 (align size) heap_header_size) h v))
      | inr f ↦
          rw (kmalloc_hit h size fuel fit (==-ne size 0 z) (==-ne fit 0 f) e)
            (place-Kept (align size) fit h v)
    ]
  ]
]

coalesce_forward-Kept : (b : ℕ) → Keeps (coalesce_forward b)
unfolding coalesce_forward
coalesce_forward-Kept b h v =
    elim (Bool-cases (not ((h.blocks b).next == 0) && (h.blocks (h.blocks b).next).is_free)) [
      | inl e ↦ rw e (merged-Kept (h.blocks b).next b (h.blocks b).next (h.blocks b).next h v)
      | inr e ↦ rw e (Kept-refl h.pmm v)
    ]

coalesce_backward-Kept : (b : ℕ) → Keeps (λ h. (coalesce_backward b h).1)
unfolding coalesce_backward
coalesce_backward-Kept b h v =
    elim (Bool-cases (not ((h.blocks b).prev == 0) && (h.blocks (h.blocks b).prev).is_free)) [
      | inl e ↦ rw e (merged-Kept (h.blocks b).prev (h.blocks b).prev b b h v)
      | inr e ↦ rw e (Kept-refl h.pmm v)
    ]

coalesce-Kept : (b : ℕ) → Keeps (λ h. (coalesce b h).1)
unfolding coalesce
coalesce-Kept b h v = elim (Bool-cases ((b == 0) || not (h.blocks b).is_free)) [
  | inl e ↦ rw e (Kept-refl h.pmm v)
  | inr e ↦ rw e (
      then-Kept (coalesce_forward b) (λ g. (coalesce_backward b g).1) (coalesce_forward-Kept b)
        (coalesce_backward-Kept b) h v)
]

-- The end of `kfree`.
freed : ℕ → Kheap → Kheap
freed b h =
    let r = coalesce b (modify b (λ x. record x { is_free = true }) h) in add_to_free_list r.0 r.1

freed-Kept : (b : ℕ) → Keeps (freed b)
unfolding freed
freed-Kept b h v =
    let marked = modify b (λ x. record x { is_free = true }) h in
    subst (Kept h.pmm) (sym (add-pmm (coalesce b marked).0 (coalesce b marked).1))
      (coalesce-Kept b marked v)

kfree_branches : Bool → Bool → ℕ → Kheap → Kheap
kfree_branches null free b h = if null then h else if free then h else freed b h

kfree-branches :
    (ptr : ℕ) (h : Kheap)
    → kfree ptr h
      ≡ kfree_branches
          (ptr == 0)
          (h.blocks (sub64 ptr heap_header_size)).is_free
          (sub64 ptr heap_header_size)
          h
unfolding kfree kfree_branches freed
kfree-branches ptr h = refl

kfree_branches-Kept : (null free : Bool) (b : ℕ) → Keeps (kfree_branches null free b)
unfolding kfree_branches
kfree_branches-Kept true free b h v = Kept-refl h.pmm v
kfree_branches-Kept false true b h v = Kept-refl h.pmm v
kfree_branches-Kept false false b h v = freed-Kept b h v

-- `kfree` frees no frame, whatever pointer it is given.
pub kfree-Kept : (ptr : ℕ) → Keeps (kfree ptr)
kfree-Kept ptr h v = rw (kfree-branches ptr h) (
    kfree_branches-Kept (ptr == 0) (h.blocks (sub64 ptr heap_header_size)).is_free
      (sub64 ptr heap_header_size) h v)
