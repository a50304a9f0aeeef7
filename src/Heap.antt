-- ===== src/Heap.antt =====
-- The kernel heap, src/memory/kheap.c: a first-fit allocator over pages of the frame allocator. All
-- blocks are doubly linked in physical order (`next`, `prev`), the free ones on a second doubly linked
-- list (`next_free`, `prev_free`).
-- A block's header is seen as a record at the address where it starts; 0 is NULL. Where the code
-- clears memory, every header that starts in the range becomes zero.
pub mod Always
pub mod Bytes
pub mod Chain
pub mod Coalesce
pub mod Dropped
pub mod FirstFit
pub mod Free
pub mod FreeList
pub mod Expand
pub mod Grow
pub mod Kept
pub mod Messages
pub mod Tail
mod Tests
pub mod Total
pub mod Joining
pub mod Layout
pub mod Links
pub mod Loose
pub mod Malloc
pub mod Merge
pub mod MergeBack
pub mod Merged
pub mod Pages
pub mod Place
pub mod Retry
pub mod RoundTrip
pub mod Runs
pub mod Snoc
pub mod Split
pub mod Start
pub mod Valid
use solace_os.Base.{
  ℕ, zero, suc, ◌+◌, ◌-◌, ◌*◌, ◌/◌, ◌%◌, Bool, true, false, not, ◌&&◌, ◌||◌, Option, none, some,
  leb, ◌==◌, if◌then◌else◌, add64, sub64, u64_mod,
}
use solace_os.Memory.{memset, in_range}
use solace_os.Frames.{Pmm, page_size, alloc_frame}

-- `heap_block_t`
pub record HeapBlock : Type 0 where
  pub size : ℕ
  pub is_free : Bool
  pub next : ℕ
  pub prev : ℕ
  pub next_free : ℕ
  pub prev_free : ℕ

-- `sizeof(heap_block_t)`: six words of eight bytes, `is_free` padded.
abbrev pub heap_header_size : ℕ
heap_header_size = 48

abbrev pub heap_min_block_size : ℕ
heap_min_block_size = heap_header_size * 2

-- A header whose bytes are all 0.
abbrev pub zero_block : HeapBlock
zero_block = record { size = 0; is_free = false; next = 0; prev = 0; next_free = 0; prev_free = 0 }

-- The statics of the file, the headers in memory, and the frame allocator.
pub record Kheap : Type 0 where
  pub blocks : ℕ → HeapBlock
  pub free_list_head : ℕ
  pub heap_start : ℕ
  pub heap_end : ℕ
  pub pmm : Pmm

-- A write through a pointer to the header at `a`.
abbrev pub modify : ℕ → (HeapBlock → HeapBlock) → Kheap → Kheap
modify a f h = record h { blocks = λ b. if a == b then f (h.blocks b) else h.blocks b }

abbrev pub set_next : ℕ → ℕ → Kheap → Kheap
set_next a p = modify a (λ b. record b { next = p })

abbrev pub set_prev : ℕ → ℕ → Kheap → Kheap
set_prev a p = modify a (λ b. record b { prev = p })

-- `memset(s, 0, n)` as the headers see it.
abbrev pub wipe : ℕ → ℕ → (ℕ → HeapBlock) → ℕ → HeapBlock
wipe s n f a = if in_range s n a then zero_block else f a

-- `memset(s, 0, n)`, on the headers and the bytes outside the bitmap; Heap.Bytes has what it does to the
-- bitmap.
pub clear : ℕ → ℕ → Kheap → Kheap
clear s n h = record h {
  blocks = wipe s n h.blocks;
  pmm = record h.pmm { mem = memset s 0 n h.pmm.mem };
}

pub add_to_free_list : ℕ → Kheap → Kheap
add_to_free_list block h =
    let marked =
      modify block (λ b. record b { is_free = true; next_free = h.free_list_head; prev_free = 0 })
        h in
    let linked =
      if h.free_list_head == 0
      then marked
      else modify h.free_list_head (λ b. record b { prev_free = block }) marked in
    record linked { free_list_head = block }

-- The successor is linked past `block`, or becomes the head.
pub unlink_left : ℕ → Kheap → Kheap
unlink_left block h =
    let b = h.blocks block in
    if b.prev_free == 0
    then record h { free_list_head = b.next_free }
    else modify b.prev_free (λ p. record p { next_free = b.next_free }) h

-- The predecessor is linked past `block`.
pub unlink_right : ℕ → Kheap → Kheap
unlink_right block h =
    let b = h.blocks block in
    if b.next_free == 0 then h else modify b.next_free (λ n. record n { prev_free = b.prev_free }) h

pub remove_from_free_list : ℕ → Kheap → Kheap
unfolding unlink_left unlink_right
remove_from_free_list block h =
    modify block (λ b. record b { is_free = false; next_free = 0; prev_free = 0 })
      (unlink_right block (unlink_left block h))

-- `alloc_frame`, whose `memset` clears the headers in the frame.
pub take_frame : Kheap → ℕ × Kheap
take_frame h =
    let (frame, pmm') = alloc_frame h.pmm in
    (
      frame,
      record h {
        pmm = pmm';
        blocks = if frame == 0 then h.blocks else wipe frame page_size h.blocks;
      },
    )

-- A frame becomes a block of its own at the end of the physical list.
pub link_frame : ℕ → Kheap → Kheap
link_frame frame h =
    let fresh =
      modify frame (λ b. record b { size = page_size - heap_header_size; is_free = true; next = 0 })
        h in
    let linked =
      if h.heap_end == 0
      then record (set_prev frame 0 fresh) { heap_start = frame }
      else set_next h.heap_end frame (set_prev frame h.heap_end fresh) in
    record linked { heap_end = frame }

-- The loop of `expand_heap` with `n` pages to go: whether it got them all, and the first new block
-- (0 is NULL).
pub expand_loop : ℕ → ℕ → Kheap → Bool × ℕ × Kheap
expand_loop zero new_block h = (true, new_block, h)
expand_loop (suc n) new_block h =
    let (frame, h') = take_frame h in
    let rest = expand_loop n (if new_block == 0 then frame else new_block) (link_frame frame h') in
    if frame == 0 then (false, new_block, h') else rest

-- `left->size += right->size + HEAP_HEADER_SIZE`, and `right` leaves the physical list.
pub absorb : ℕ → ℕ → Kheap → Kheap
absorb left right h =
    let grown =
      modify left
        (λ b. record b {
          size = (b.size + ((h.blocks right).size + heap_header_size)) % u64_mod;
          next = (h.blocks right).next;
        })
        h in
    let successor = (grown.blocks left).next in
    let linked = if successor == 0 then grown else set_prev successor left grown in
    if h.heap_end == right then record linked { heap_end = left } else linked

-- The new block is merged into the block before it if that is free.
pub merge_back : ℕ → Kheap → ℕ × Kheap
unfolding absorb remove_from_free_list
merge_back new_block h =
    let before = (h.blocks new_block).prev in
    if not (before == 0) && (h.blocks before).is_free
    then (before, absorb before new_block (remove_from_free_list before h))
    else (new_block, h)

abbrev pub pages_for : ℕ → ℕ
pages_for min_expand_size =
    let n = (min_expand_size + heap_header_size + page_size - 1) % u64_mod / page_size in
    if n == 0 then 1 else n

pub expand_heap : ℕ → Kheap → Bool × Kheap
unfolding expand_loop merge_back add_to_free_list
expand_heap min_expand_size h =
    let (all, new_block, h') = expand_loop (pages_for min_expand_size) 0 h in
    if not all
    then (false, h')
    else if new_block == 0
    then (false, h')
    else let (block, h'') = merge_back new_block h' in (true, add_to_free_list block h'')

pub coalesce_forward : ℕ → Kheap → Kheap
unfolding absorb remove_from_free_list clear
coalesce_forward current h =
    let after = (h.blocks current).next in
    if not (after == 0) && (h.blocks after).is_free
    then clear after heap_header_size (absorb current after (remove_from_free_list after h))
    else h

pub coalesce_backward : ℕ → Kheap → ℕ × Kheap
unfolding absorb remove_from_free_list clear
coalesce_backward current h =
    let before = (h.blocks current).prev in
    if not (before == 0) && (h.blocks before).is_free
    then (
      before,
      clear current heap_header_size (absorb before current (remove_from_free_list before h)),
    )
    else (current, h)

pub coalesce : ℕ → Kheap → ℕ × Kheap
unfolding coalesce_forward coalesce_backward
coalesce block h =
    if (block == 0) || not (h.blocks block).is_free
    then (block, h)
    else coalesce_backward block (coalesce_forward block h)

pub kheap_init : Kheap → Kheap
unfolding expand_heap
kheap_init h =
    (expand_heap (page_size * 4) (record h { free_list_head = 0; heap_start = 0; heap_end = 0 })).1

-- `(size + 7) & ~7` in 64 bits: the low three bits are cleared.
abbrev pub align : ℕ → ℕ
align size = (size + 8 - 1) % u64_mod / 8 * 8

-- The first-fit search from the block `p` on: 0 if the list ends, `none` if the fuel runs out.
pub find_fit : ℕ → ℕ → ℕ → (ℕ → HeapBlock) → Option ℕ
find_fit zero size p blocks = none
find_fit (suc k) size p blocks =
    let rest = find_fit k size (blocks p).next_free blocks in
    if p == 0 then some 0 else if leb size (blocks p).size then some p else rest

-- The block keeps `size` bytes, and the rest becomes a block of its own behind it.
pub carve : ℕ → ℕ → Kheap → Kheap
carve size block h =
    let new_free = block + heap_header_size + size in
    let old = h.blocks block in
    let made =
      modify new_free
        (λ b. record b {
          size = sub64 (sub64 old.size size) heap_header_size;
          is_free = true;
          next = old.next;
          prev = block;
        })
        h in
    let linked =
      if old.next == 0
      then record made { heap_end = new_free }
      else set_prev old.next new_free made in
    modify block (λ b. record b { size = size; next = new_free }) linked

pub split : ℕ → ℕ → Kheap → Kheap
unfolding carve add_to_free_list
split size block h = add_to_free_list (block + heap_header_size + size) (carve size block h)

-- A block that the search found is taken, split if it is large enough, and its data cleared.
pub place : ℕ → ℕ → Kheap → ℕ × Kheap
unfolding remove_from_free_list split clear
place size block h =
    let taken = remove_from_free_list block h in
    let fitted =
      if leb (add64 size heap_min_block_size) (taken.blocks block).size
      then split size block taken
      else taken in
    let used = modify block (λ b. record b { is_free = false }) fitted in
    (block + heap_header_size, clear (block + heap_header_size) (used.blocks block).size used)

-- `kmalloc`, with `fuel` rounds for each search; `none` if a search does not end within them.
pub kmalloc : ℕ → ℕ → Kheap → Option (ℕ × Kheap)
unfolding find_fit expand_heap place
kmalloc fuel size h =
    let n = align size in
    let retry =
      let (grown, h') = expand_heap (add64 n heap_header_size) h in
      if not grown then some (0, h') else elim (find_fit fuel n h'.free_list_head h'.blocks) [
        | none ↦ none
        | some fit ↦ if fit == 0 then some (0, h') else some (place n fit h')
      ] in
    if size == 0 then some (0, h) else elim (find_fit fuel n h.free_list_head h.blocks) [
      | none ↦ none
      | some fit ↦ if fit == 0 then retry else some (place n fit h)
    ]

pub kfree : ℕ → Kheap → Kheap
unfolding coalesce add_to_free_list
kfree ptr h =
    let block = sub64 ptr heap_header_size in
    if ptr == 0
    then h
    else if (h.blocks block).is_free
    then h
    else let (merged, h') = coalesce block (modify block (λ b. record b { is_free = true }) h) in
      add_to_free_list merged h'
