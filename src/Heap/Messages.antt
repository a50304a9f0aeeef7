-- ===== src/Heap/Messages.antt =====
-- What the heap prints: the calls of `kprintf` in memory/kheap.c, and those of `alloc_frame` that they
-- enclose, in order.
pub mod Laws
use solace_os.Base.{
  ℕ, zero, suc, ◌+◌, ◌*◌, ◌≡◌, refl, inl, inr, Bool, true, false, not, ◌&&◌, ◌||◌, Option, none,
  some, List, [], ◌∷◌, ◌++◌, ◌==◌, if◌then◌else◌, leb, add64, sub64, codes, Bool-cases,
  Option-cases,
}
use solace_os.Text.{first_byte, advance}
use solace_os.Console.{Call, call, word, skip_flags, skip_width, read_modifier}
use solace_os.Console.Check.{is_typed, all_typed, all_typed-nil, all_typed-cons, all_typed-append}
use solace_os.Frames.{page_size}
use solace_os.Frames.Messages.{alloc_frame_messages, alloc_frame_messages-typed}
use solace_os.Heap.{
  Kheap, heap_header_size, heap_min_block_size, modify, take_frame, link_frame, pages_for,
  expand_heap, remove_from_free_list, split, align, find_fit, coalesce, coalesce_forward, place,
}

-- The loop of `expand_heap`, with `n` pages to go.
unfoldable pub expand_loop_messages : ℕ → Kheap → List Call
expand_loop_messages zero h = []
expand_loop_messages (suc n) h =
    let rest = expand_loop_messages n (link_frame (take_frame h).0 (take_frame h).1) in
    alloc_frame_messages h.pmm
    ++ (if (take_frame h).0 == 0
        then call (codes "KHeap Error: Failed to allocate frame during expansion!\n") [] ∷ []
        else rest)

unfoldable pub expand_messages : ℕ → Kheap → List Call
unfolding expand_loop_messages
expand_messages min_expand_size h =
    call (codes "KHeap: Expanding heap by %zu pages\n") (word (pages_for min_expand_size) ∷ [])
    ∷ expand_loop_messages (pages_for min_expand_size) h

unfoldable pub kheap_init_messages : Kheap → List Call
unfolding expand_messages
kheap_init_messages h =
    expand_messages (page_size * 4) (record h { free_list_head = 0; heap_start = 0; heap_end = 0 })
    ++ (call (codes "KHeap: Initialized.\n") [] ∷ [])

-- The end of `kmalloc`, when the search has found `block`.
unfoldable pub place_messages : ℕ → ℕ → Kheap → List Call
place_messages size block h =
    let taken = remove_from_free_list block h in
    let new_free = block + heap_header_size + size in
    let parts = split size block taken in
    if leb (add64 size heap_min_block_size) (taken.blocks block).size
    then call (codes "KHeap: Split block %p. Allocated %zu, remaining %zu at %p\n") (
        word block
        ∷ word (parts.blocks block).size
        ∷ word (parts.blocks new_free).size
        ∷ word new_free
        ∷ [])
      ∷ []
    else call (codes "KHeap: Allocated whole block %p (%zu) for size %zu\n")
        (word block ∷ word (taken.blocks block).size ∷ word size ∷ [])
      ∷ []

-- `kmalloc` behind its call of `expand_heap`.
unfoldable pub retry_messages : ℕ → ℕ → Bool × Kheap → List Call
unfolding place_messages
retry_messages fuel size (grown, h) =
    if not grown
    then call (codes "KHeap Error: Failed to expand heap for allocation of size %zu\n")
        (word size ∷ [])
      ∷ []
    else elim (find_fit fuel size h.free_list_head h.blocks) [
      | none ↦ []
      | some fit ↦
          if fit == 0
          then call (codes "KHeap Error: Still no suitable block after expansion!\n") [] ∷ []
          else place_messages size fit h
    ]

-- `kmalloc`, as far as its searches end within the fuel.
unfoldable pub kmalloc_messages : ℕ → ℕ → Kheap → List Call
unfolding retry_messages
kmalloc_messages fuel size h =
    let n = align size in
    if size == 0 then [] else elim (find_fit fuel n h.free_list_head h.blocks) [
      | none ↦ []
      | some fit ↦
          if fit == 0
          then expand_messages (add64 n heap_header_size) h
            ++ retry_messages fuel n (expand_heap (add64 n heap_header_size) h)
          else place_messages n fit h
    ]

-- The two steps of `coalesce`.
unfoldable pub forward_messages : ℕ → Kheap → List Call
forward_messages current h =
    let after = (h.blocks current).next in
    if not (after == 0) && (h.blocks after).is_free
    then call (codes "KHeap: Coalescing forward %p (%zu) with %p (%zu)\n")
        (word current ∷ word (h.blocks current).size ∷ word after ∷ word (h.blocks after).size ∷ [])
      ∷ []
    else []

unfoldable pub backward_messages : ℕ → Kheap → List Call
backward_messages current h =
    let before = (h.blocks current).prev in
    if not (before == 0) && (h.blocks before).is_free
    then call (codes "KHeap: Coalescing backward %p (%zu) with %p (%zu)\n") (
        word before
        ∷ word (h.blocks before).size
        ∷ word current
        ∷ word (h.blocks current).size
        ∷ [])
      ∷ []
    else []

unfoldable pub coalesce_messages : ℕ → Kheap → List Call
unfolding forward_messages backward_messages
coalesce_messages block h =
    if (block == 0) || not (h.blocks block).is_free
    then []
    else forward_messages block h ++ backward_messages block (coalesce_forward block h)

-- `kfree`
unfoldable pub kfree_messages : ℕ → Kheap → List Call
unfolding coalesce_messages
kfree_messages ptr h =
    let block = sub64 ptr heap_header_size in
    let marked = modify block (λ b. record b { is_free = true }) h in
    let merged = (coalesce block marked).0 in
    let size = ((coalesce block marked).1.blocks merged).size in
    if ptr == 0
    then []
    else if (h.blocks block).is_free
    then call (codes "KHeap Warning: Double free detected for pointer %p\n") (word ptr ∷ []) ∷ []
    else call (codes "KHeap: kfree(%p) - block %p, size %zu\n")
          (word ptr ∷ word block ∷ word (h.blocks block).size ∷ [])
        ∷ coalesce_messages block marked
      ++ (if merged == block
          then call (codes "KHeap: Added block %p (%zu) to free list\n")
              (word merged ∷ word size ∷ [])
            ∷ []
          else call (codes "KHeap: Added coalesced block %p (%zu) to free list\n")
              (word merged ∷ word size ∷ [])
            ∷ [])
