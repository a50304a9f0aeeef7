-- ===== src/Heap/Tests.antt =====
-- The kernel heap on two pages: a used block of 48 bytes, a free one behind it in the same page, and a
-- page that is in use.
mod Growth
use solace_os.Base.{
  inr, ◌*◌, ◌/◌, ◌%◌, ◌≤◌, ◌<◌, ◌∙◌, ◌++◌, ap, ltb, Bool, ℕ, ◌+◌, ◌≡◌, refl, true, false, Option,
  none, some, List, [], ◌∷◌, arith, ◌==◌, if◌then◌else◌,
}
use solace_os.Heap.{
  Kheap, heap_header_size, zero_block, align, remove_from_free_list, find_fit, split, expand_heap,
  kmalloc, kfree,
}
use solace_os.Heap.FreeList.{IsFreeList, remove_from_free_list-IsFreeList}
use solace_os.Base.Bits.{bit_of-full}
use solace_os.Frames.{page_size, test_bit}
use solace_os.Frames.Count.{free_frames, free_frames-row}
use solace_os.Heap.Chain.{head_of}
use solace_os.Heap.Expand.{Ready}
use solace_os.Heap.Start.{Grew}
use solace_os.Heap.Retry.{kmalloc-expands}
use solace_os.Heap.Valid.{IsHeap}
use solace_os.Heap.Split.{split-IsHeap}
use solace_os.Heap.RoundTrip.{Restored, kfree-kmalloc}
use solace_os.Heap.Loose.{AllListed}
use solace_os.Heap.Free.{Freed, kfree-Freed}
use solace_os.Heap.FirstFit.{first_fit, find_fit-first_fit}
use solace_os.Heap.Malloc.{Taken, kmalloc-first_fit}

abbrev used_block : ℕ
used_block = 0x4010_0000

abbrev free_block : ℕ
free_block = 0x4010_0060

abbrev last_block : ℕ
last_block = 0x4010_1000

abbrev heap : Kheap
heap = record {
  blocks = λ a.
      if a == used_block
      then record {
        size = 48;
        is_free = false;
        next = free_block;
        prev = 0;
        next_free = 0;
        prev_free = 0;
      }
      else if a == free_block
      then record {
        size = 3952;
        is_free = true;
        next = last_block;
        prev = used_block;
        next_free = 0;
        prev_free = 0;
      }
      else if a == last_block
      then record {
        size = 4048;
        is_free = false;
        next = 0;
        prev = free_block;
        next_free = 0;
        prev_free = 0;
      }
      else zero_block;
  free_list_head = free_block;
  heap_start = used_block;
  heap_end = last_block;
  pmm = record {
    frame_bitmap = λ k. 255;
    total_memory = 0x3ff0_0000;
    free_memory = 0;
    highest_usable_address = 0x8000_0000;
    mem = λ a. 7;
    bitmap_start = 0x400a_0000;
    bitmap_length = 0x8000;
  };
}

abbrev all_blocks : List ℕ
all_blocks = used_block ∷ free_block ∷ last_block ∷ []

heap-IsFreeList : IsFreeList heap (free_block ∷ [])
heap-IsFreeList = record {
  chain = (refl, omega arith, refl, refl);
  distinct = (refl, tt);
  non_null = refl;
}

heap-IsHeap : IsHeap heap all_blocks (free_block ∷ [])
heap-IsHeap = record {
  chain = (refl, omega arith, refl, (refl, omega arith, refl, (refl, omega arith, refl, refl)));
  last = refl;
  layout = (λ a i. ground arith, (λ a i. ground arith, (λ a i. ground arith, tt)));
  fits = λ a i. ground arith;
  non_null = refl;
  free_list = heap-IsFreeList;
  listed = λ a i. (ground arith, ground arith);
}

heap-AllListed : AllListed heap all_blocks (free_block ∷ [])
heap-AllListed = λ a i f. ground arith

kfree-Freed_example : Freed heap all_blocks used_block (kfree 0x4010_0030 heap)
kfree-Freed_example =
    kfree-Freed heap all_blocks (free_block ∷ []) used_block heap-IsHeap heap-AllListed refl refl

kmalloc-first_fit_example :
    (g : Kheap) × (kmalloc 2 100 heap ≡ some (free_block + heap_header_size, g))
    × Taken heap all_blocks (free_block ∷ []) 104 free_block g
unfolding first_fit
kmalloc-first_fit_example =
    kmalloc-first_fit heap all_blocks (free_block ∷ []) 100 2 heap-IsHeap (omega arith)
      (omega arith) (omega arith)

kfree-kmalloc_example :
    (p : ℕ) × (g : Kheap) × (kmalloc 2 100 heap ≡ some (p, g))
    × Restored heap all_blocks (kfree p g)
kfree-kmalloc_example =
    kfree-kmalloc heap all_blocks (free_block ∷ []) 100 2 heap-IsHeap heap-AllListed (omega arith)
      (omega arith) (unfold first_fit in omega arith)

-- The address that a call of `kmalloc` returns.
address_of : Option (ℕ × Kheap) → Option ℕ
address_of none = none
address_of (some (p, h)) = some p

-- The block is found on the free list, and what is left of it goes back there.
kmalloc_run : address_of (kmalloc 2 100 heap) ≡ some 0x4010_0090
unfolding address_of kmalloc find_fit
kmalloc_run = refl

align_run : (align 100 ≡ 104) × (align 104 ≡ 104) × (align 0xffff_ffff_ffff_fffa ≡ 0)
align_run = (refl, refl, refl)

-- The first 264 frames are in use, among them those of the heap.
abbrev some_frames : ℕ → ℕ
some_frames k = if ltb k 33 then 255 else 0

abbrev heap_with_frames : Kheap
heap_with_frames = record heap {
  pmm = record heap.pmm {
    frame_bitmap = some_frames;
    free_memory = free_frames some_frames * page_size;
  };
}

some_frames-IsBytes : (k : ℕ) → some_frames k < 256
some_frames-IsBytes k = ground arith

heap_with_frames-Ready : Ready 264 heap_with_frames all_blocks (free_block ∷ [])
unfolding test_bit
heap_with_frames-Ready = record {
  heap = record {
    chain = heap-IsHeap.chain;
    last = heap-IsHeap.last;
    layout = heap-IsHeap.layout;
    fits = heap-IsHeap.fits;
    non_null = heap-IsHeap.non_null;
    free_list = record {
      chain = heap-IsFreeList.chain;
      distinct = heap-IsFreeList.distinct;
      non_null = heap-IsFreeList.non_null;
    };
    listed = heap-IsHeap.listed;
  };
  frames = record { bytes = some_frames-IsBytes; counted = refl };
  used = λ j l.
      let low : ltb (j / 8) 33 ≡ true = ground (arith, l) in
      rw low (bit_of-full (j % 8) (omega arith));
  below = λ a i. ground arith;
}

frame_left : 1 ≤ free_frames some_frames
unfolding test_bit
frame_left =
    free_frames-row 1 264 some_frames some_frames-IsBytes (omega arith)
      (λ j p q. ap (λ i. test_bit i some_frames) {x = j} {y = 264} (omega (arith, p, q)) ∙ refl)

kmalloc-expands_example :
    (r : Bool × Kheap) × (w : Grew heap_with_frames all_blocks (free_block ∷ []) 4048 r)
    × (g : Kheap) × (expand_heap 4048 heap_with_frames ≡ r)
    × (kmalloc 3 4000 heap_with_frames ≡ some (head_of w.pages + heap_header_size, g))
    × Taken r.1 (all_blocks ++ w.pages) (head_of w.pages ∷ free_block ∷ []) 4000 (head_of w.pages) g
unfolding first_fit
kmalloc-expands_example =
    kmalloc-expands heap_with_frames all_blocks (free_block ∷ []) 4000 264 heap_with_frames-Ready
      (inr refl) (omega arith) (omega arith) refl (omega (arith, frame_left)) 3 (omega arith)
