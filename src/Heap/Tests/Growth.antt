-- ===== src/Heap/Tests/Growth.antt =====
-- The theorems on the growth of the heap, on the heap of the parent module.
use solace_os.Base.{ℕ, ◌≡◌, ◌≢◌, refl, inl, inr, true, Option, none, some, [], ◌∷◌, arith}
use solace_os.Heap.{Kheap, modify, expand_heap, kmalloc}
use solace_os.Heap.FreeList.{IsFreeList}
use solace_os.Heap.Valid.{set_is_free-IsHeap}
use solace_os.Heap.Expand.{Ready}
use solace_os.Heap.Place.{Steady}
use solace_os.Heap.Always.{Allotted, kmalloc-succeeds}
use solace_os.Heap.Bytes.{Spares}
use solace_os.Frames.{Linker}
use solace_os.Heap.Dropped.{expand_heap-drops}
use solace_os.Heap.Tests.{
  last_block, free_block, all_blocks, heap_with_frames, heap_with_frames-Ready, frame_left,
}

heap_with_frames-Steady : Steady 264 heap_with_frames all_blocks (free_block ∷ [])
heap_with_frames-Steady = record { ready = heap_with_frames-Ready; tail = inr (inl refl) }

kmalloc-succeeds_example :
    (p : ℕ) × (g : Kheap) × (kmalloc 3 4000 heap_with_frames ≡ some (p, g))
    × (p ≢ 0)
    × Allotted heap_with_frames all_blocks 4000 p g
kmalloc-succeeds_example =
    kmalloc-succeeds 264 heap_with_frames all_blocks (free_block ∷ []) heap_with_frames-Steady 3
      4000 (omega arith) (omega arith) (omega arith) (omega (arith, frame_left))

-- The last page is marked free, but only the block before it is on the free list.
abbrev heap_with_page : Kheap
heap_with_page = modify last_block (λ k. record k { is_free = true }) heap_with_frames

heap_with_page-Ready : Ready 264 heap_with_page all_blocks (free_block ∷ [])
heap_with_page-Ready = record {
  heap =
      set_is_free-IsHeap heap_with_frames all_blocks (free_block ∷ []) heap_with_frames-Ready.heap
        last_block refl refl true;
  frames = heap_with_frames-Ready.frames;
  used = heap_with_frames-Ready.used;
  below = λ a i. ground arith;
}

expand_heap-drops_example :
    ((expand_heap 4000 heap_with_page).0 ≡ true)
    × IsFreeList (expand_heap 4000 heap_with_page).1 (last_block ∷ [])
expand_heap-drops_example =
    expand_heap-drops heap_with_page all_blocks (free_block ∷ []) 4000 264 heap_with_page-Ready
      (omega arith) refl (refl, refl) (omega (arith, frame_left))

-- The linker's symbols for a kernel of 256 KiB below the heap.
abbrev linker : Linker
linker = record {
  kernel_start = 0x4008_0000;
  kernel_end = 0x400c_0000;
  pmm_bitmap_start = 0x400a_0000;
  pmm_bitmap_end = 0x400a_8000;
}

-- A call for 100 bytes, which takes a part of the free block.
heap_of : Option (ℕ × Kheap) → Kheap
heap_of none = heap_with_frames
heap_of (some (p, g)) = g

-- What the call clears, as far as it returns.
abbrev SparesResult : Option (ℕ × Kheap) → Type 0
SparesResult none = Unit {0}
SparesResult (some (p, g)) = Spares linker none p g
