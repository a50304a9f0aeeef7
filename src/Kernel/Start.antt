-- ===== src/Kernel/Start.antt =====
-- The heap that the kernel starts with, and the first `kmalloc`.
use solace_os.Base.{
  ℕ, ◌+◌, ◌*◌, ◌-◌, ◌≤◌, ◌<◌, ◌≡◌, ◌≢◌, sym, ◌∙◌, subst, true, false, Option, some, List, [], ◌∷◌,
  arith, length, ==_self,
}
use solace_os.Frames.{
  Pmm, Linker, BootParams, page_size, pmm_ram_base, test_bit, kernel_range, frame_alloc_init,
}
use solace_os.Frames.Bitmap.{IsBytes}
use solace_os.Frames.Count.{free_frames-row}
use solace_os.Frames.Valid.{IsValid}
use solace_os.Frames.Init.{
  HasBitmap, IsRamRange, frame_alloc_init-IsValid, test_bit-frame_alloc_init,
}
use solace_os.Heap.{Kheap, heap_header_size, align, kmalloc, kheap_init}
use solace_os.Heap.Chain.{has, has-ne, head_of}
use solace_os.Heap.Valid.{size_of, is_free_at, IsHeap}
use solace_os.Heap.FirstFit.{first_fit}
use solace_os.Heap.Malloc.{Taken, kmalloc-first_fit}
use solace_os.Heap.Start.{kheap_init-Grew}
use solace_os.Kernel.{kernel_init}

-- The heap after the start: five pages, all marked free, of which only the first is on the free list.
pub record Started (g : Kheap) (pages : List ℕ) : Type 0 where
  pub heap : IsHeap g pages (head_of pages ∷ [])
  pub count : length pages ≡ 5
  pub page :
      (a : ℕ)
      → has a pages ≡ true
      → (size_of g a ≡ page_size - heap_header_size) × (is_free_at g a ≡ true)

kheap_init-Started :
    (h : Kheap)
    → IsValid h.pmm
    → 5 * page_size ≤ h.pmm.free_memory
    → (pages : List ℕ) × Started (kheap_init h) pages
kheap_init-Started h v m =
    let (r, e, w) = kheap_init-Grew h v in
    let ok : r.0 ≡ true = w.enough m in
    (
      w.pages,
      subst (λ g. Started g w.pages) (sym e)
          (record { heap = rw ok at (w.heap); count = w.count ok; page = w.page }),
    )

first_page :
    (g : Kheap) (pages : List ℕ) (size : ℕ)
    → Started g pages
    → size ≤ page_size - heap_header_size
    → first_fit (size_of g) (align size) (head_of pages ∷ []) ≡ head_of pages
unfolding first_fit
first_page g [] size w l = absurd (omega (arith, w.count))
first_page g (p ∷ ps) size w l =
    let is : size_of g p ≡ page_size - heap_header_size = (w.page p (rw (==_self p))).0 in
    rw is (ground (arith, l))

-- The first `kmalloc` on such a heap takes the first page.
Started-kmalloc :
    (h : Kheap) (pages : List ℕ) (size : ℕ)
    → Started h pages
    → size ≢ 0
    → size ≤ page_size - heap_header_size
    → (g : Kheap) × (kmalloc 2 size h ≡ some (head_of pages + heap_header_size, g))
      × Taken h pages (head_of pages ∷ []) (align size) (head_of pages) g
Started-kmalloc h pages size w n l =
    let fit = first_page h pages size w l in
    let some_block : head_of pages ≢ 0 = λ e.
      has-ne 0 (head_of pages) (head_of pages ∷ []) w.heap.free_list.non_null
        (rw (==_self (head_of pages))) (sym e) in
    subst
      (λ b.
        (g : Kheap) × (kmalloc 2 size h ≡ some (b + heap_header_size, g))
        × Taken h pages (head_of pages ∷ []) (align size) b g)
      fit
      (kmalloc-first_fit h pages (head_of pages ∷ []) size 2 w.heap n (omega arith)
        (λ e. some_block (sym fit ∙ e)))

module _ (l : Linker) (params : Option BootParams) (h : Kheap) (bytes : IsBytes h.pmm.frame_bitmap)
    (placed : HasBitmap l) (kernel : IsRamRange (kernel_range l params))
    (above : pmm_ram_base + 5 * page_size ≤ (kernel_range l params).0)
    (above_bitmap : pmm_ram_base + 5 * page_size ≤ l.pmm_bitmap_start) where
  -- The frame allocator when `kheap_init` is called.
  abbrev pmm : Pmm
  pmm = frame_alloc_init l params h.pmm

  valid : IsValid pmm
  valid = frame_alloc_init-IsValid l h.pmm bytes placed params

  row_free : (j : ℕ) → 0 ≤ j → j < 0 + 5 → test_bit j pmm.frame_bitmap ≡ false
  row_free j p q =
      test_bit-frame_alloc_init l h.pmm bytes placed params j kernel (omega (arith, q))
      ∙ ground (arith, q, above, above_bitmap)

  memory_left : 5 * page_size ≤ pmm.free_memory
  memory_left = omega (
    arith,
    valid.counted,
    free_frames-row 5 0 pmm.frame_bitmap valid.bytes (omega arith) row_free,
  )

  init-Started : (pages : List ℕ) × Started (kernel_init l params h) pages
  unfolding kernel_init
  init-Started = kheap_init-Started (record h { pmm = pmm }) valid memory_left

  -- When the kernel has started, the heap is valid and has five pages, all marked free, of which only
  -- the first is on the free list; and a `kmalloc` of up to 4048 bytes then succeeds and takes that
  -- page, with fuel for two rounds. The range of the kernel and the bitmap lie at least five pages above
  -- the start of RAM.
  pub kmalloc-kernel_init :
      (size : ℕ)
      → size ≢ 0
      → size ≤ page_size - heap_header_size
      → (pages : List ℕ) × Started (kernel_init l params h) pages
        × ((g : Kheap) × (kmalloc 2 size (kernel_init l params h)
              ≡ some (head_of pages + heap_header_size, g))
            × Taken
                (kernel_init l params h)
                pages
                (head_of pages ∷ [])
                (align size)
                (head_of pages)
                g)
  kmalloc-kernel_init size n small =
      let (pages, w) = init-Started in
      (pages, w, Started-kmalloc (kernel_init l params h) pages size w n small)
