-- ===== src/Heap/Messages/Laws.antt =====
-- The messages of the heap fit their formats.
use solace_os.Base.{
  ℕ, zero, suc, ◌+◌, ◌*◌, ◌≡◌, refl, Bool, true, false, not, ◌&&◌, ◌||◌, Option, none, some, List,
  [], ◌∷◌, ◌==◌, if◌then◌else◌, leb, add64, sub64, codes,
}
use solace_os.Text.{first_byte, advance}
use solace_os.Console.{Call, call, word, skip_flags, skip_width, read_modifier}
use solace_os.Console.Check.{is_typed, all_typed, all_typed-nil, all_typed-cons, all_typed-append}
use solace_os.Frames.{page_size}
use solace_os.Frames.Messages.{alloc_frame_messages-typed}
use solace_os.Heap.{
  Kheap, heap_header_size, heap_min_block_size, modify, take_frame, link_frame, pages_for,
  expand_heap, remove_from_free_list, align, find_fit, coalesce, coalesce_forward,
}
use solace_os.Heap.Messages.{
  expand_loop_messages, expand_messages, kheap_init_messages, place_messages, retry_messages,
  kmalloc_messages, forward_messages, backward_messages, coalesce_messages, kfree_messages,
}

-- The single messages.
module _ (a b c d : ℕ) where
  message-typed :
      (all_typed (call (codes "KHeap Error: Failed to allocate frame during expansion!\n") [] ∷ [])
        ≡ true)
      × (all_typed (call (codes "KHeap: Expanding heap by %zu pages\n") (word a ∷ []) ∷ []) ≡ true)
      × (all_typed (call (codes "KHeap: Initialized.\n") [] ∷ []) ≡ true)
      × (all_typed (
            call
              (codes "KHeap: Split block %p. Allocated %zu, remaining %zu at %p\n")
              (word a ∷ word b ∷ word c ∷ word d ∷ [])
            ∷ [])
          ≡ true)
      × (all_typed (
            call
              (codes "KHeap: Allocated whole block %p (%zu) for size %zu\n")
              (word a ∷ word b ∷ word c ∷ [])
            ∷ [])
          ≡ true)
      × (all_typed (
            call
              (codes "KHeap Error: Failed to expand heap for allocation of size %zu\n")
              (word a ∷ [])
            ∷ [])
          ≡ true)
      × (all_typed (call (codes "KHeap Error: Still no suitable block after expansion!\n") [] ∷ [])
          ≡ true)
      × (all_typed (
            call
              (codes "KHeap: Coalescing forward %p (%zu) with %p (%zu)\n")
              (word a ∷ word b ∷ word c ∷ word d ∷ [])
            ∷ [])
          ≡ true)
      × (all_typed (
            call
              (codes "KHeap: Coalescing backward %p (%zu) with %p (%zu)\n")
              (word a ∷ word b ∷ word c ∷ word d ∷ [])
            ∷ [])
          ≡ true)
      × (all_typed
            (call (codes "KHeap Warning: Double free detected for pointer %p\n") (word a ∷ []) ∷ [])
          ≡ true)
      × (all_typed (
            call (codes "KHeap: kfree(%p) - block %p, size %zu\n") (word a ∷ word b ∷ word c ∷ [])
            ∷ [])
          ≡ true)
      × (all_typed
            (call (codes "KHeap: Added block %p (%zu) to free list\n") (word a ∷ word b ∷ []) ∷ [])
          ≡ true)
      × (all_typed (
            call
              (codes "KHeap: Added coalesced block %p (%zu) to free list\n")
              (word a ∷ word b ∷ [])
            ∷ [])
          ≡ true)
  unfolding all_typed is_typed skip_flags skip_width read_modifier first_byte advance
  message-typed = (refl, refl, refl, refl, refl, refl, refl, refl, refl, refl, refl, refl, refl)

if_lists-typed :
    (b : Bool) (xs ys : List Call)
    → all_typed xs ≡ true
    → all_typed ys ≡ true
    → all_typed (if b then xs else ys) ≡ true
if_lists-typed true xs ys p q = p
if_lists-typed false xs ys p q = q

expand_loop-typed : (n : ℕ) (h : Kheap) → all_typed (expand_loop_messages n h) ≡ true
unfolding expand_loop_messages
expand_loop-typed zero h = all_typed-nil
expand_loop-typed (suc n) h = all_typed-append _ _ (alloc_frame_messages-typed h.pmm) (
    if_lists-typed ((take_frame h).0 == 0) _ _ ((message-typed 0 0 0 0).0)
      (expand_loop-typed n (link_frame (take_frame h).0 (take_frame h).1)))

expand-typed : (m : ℕ) (h : Kheap) → all_typed (expand_messages m h) ≡ true
unfolding expand_messages
expand-typed m h =
    all_typed-cons _ _ ((message-typed (pages_for m) 0 0 0).1) (expand_loop-typed (pages_for m) h)

pub kheap_init_messages-typed : (h : Kheap) → all_typed (kheap_init_messages h) ≡ true
unfolding kheap_init_messages
kheap_init_messages-typed h =
    all_typed-append _ _
      (expand-typed (page_size * 4) (record h { free_list_head = 0; heap_start = 0; heap_end = 0 }))
      ((message-typed 0 0 0 0).2)

place-typed : (n b : ℕ) (h : Kheap) → all_typed (place_messages n b h) ≡ true
unfolding place_messages
place-typed n b h =
    if_lists-typed (leb (add64 n heap_min_block_size) ((remove_from_free_list b h).blocks b).size) _
      _ ((message-typed b _ _ (b + heap_header_size + n)).3) ((message-typed b _ n 0).4)

search-typed :
    (o : Option ℕ) (miss : List Call) (hit : ℕ → List Call)
    → all_typed miss ≡ true
    → ((fit : ℕ) → all_typed (hit fit) ≡ true)
    → all_typed
        (elim o as (λ _. List Call) [ none ↦ [] | some fit ↦ if fit == 0 then miss else hit fit ])
      ≡ true
search-typed none miss hit p q = all_typed-nil
search-typed (some fit) miss hit p q = if_lists-typed (fit == 0) miss (hit fit) p (q fit)

retry-typed : (fuel n : ℕ) (r : Bool × Kheap) → all_typed (retry_messages fuel n r) ≡ true
unfolding retry_messages
retry-typed fuel n (grown, h) = if_lists-typed (not grown) _ _ ((message-typed n 0 0 0).5) (
    search-typed (find_fit fuel n h.free_list_head h.blocks) _ (λ fit. place_messages n fit h)
      ((message-typed 0 0 0 0).6) (λ fit. place-typed n fit h))

pub kmalloc_messages-typed :
    (fuel size : ℕ) (h : Kheap) → all_typed (kmalloc_messages fuel size h) ≡ true
unfolding kmalloc_messages
kmalloc_messages-typed fuel size h =
    let m = add64 (align size) heap_header_size in
    if_lists-typed (size == 0) [] _ all_typed-nil (
      search-typed (find_fit fuel (align size) h.free_list_head h.blocks) _
        (λ fit. place_messages (align size) fit h)
        (all_typed-append _ _ (expand-typed m h) (retry-typed fuel (align size) (expand_heap m h)))
        (λ fit. place-typed (align size) fit h))

coalesce-typed : (b : ℕ) (h : Kheap) → all_typed (coalesce_messages b h) ≡ true
unfolding coalesce_messages forward_messages backward_messages
coalesce-typed b h =
    let g = coalesce_forward b h in
    if_lists-typed ((b == 0) || not (h.blocks b).is_free) [] _ all_typed-nil (
      all_typed-append _ _
        (if_lists-typed (not ((h.blocks b).next == 0) && (h.blocks (h.blocks b).next).is_free) _ []
          ((message-typed b _ _ _).7) all_typed-nil)
        (if_lists-typed (not ((g.blocks b).prev == 0) && (g.blocks (g.blocks b).prev).is_free) _ []
          ((message-typed _ _ b _).8) all_typed-nil))

pub kfree_messages-typed : (ptr : ℕ) (h : Kheap) → all_typed (kfree_messages ptr h) ≡ true
unfolding kfree_messages
kfree_messages-typed ptr h =
    let b = sub64 ptr heap_header_size in
    let marked = modify b (λ x. record x { is_free = true }) h in
    if_lists-typed (ptr == 0) [] _ all_typed-nil (
      if_lists-typed (h.blocks b).is_free _ _ ((message-typed ptr 0 0 0).9) (
        all_typed-cons _ _ ((message-typed ptr b _ 0).10) (
          all_typed-append _ _ (coalesce-typed b marked) (
            if_lists-typed ((coalesce b marked).0 == b) _ _ ((message-typed _ _ 0 0).11)
              ((message-typed _ _ 0 0).12)))))
