-- ===== src/Kernel/Mallocs.antt =====
-- The heap that the kernel starts with is one on which the ranges of `kmalloc` are apart.
use solace_os.Base.{ℕ, Option, List, []}
use solace_os.Frames.{Linker, BootParams, frame_alloc_init}
use solace_os.Frames.Bitmap.{IsBytes}
use solace_os.Frames.Init.{HasBitmap, frame_alloc_init-IsValid}
use solace_os.Heap.{Kheap}
use solace_os.Heap.Runs.{Mallocs, Disjoint, Served, Mallocs-Served, kheap_init-Served}
use solace_os.Kernel.{kernel_init}

module _ (l : Linker) (params : Option BootParams) (h : Kheap) (bytes : IsBytes h.pmm.frame_bitmap)
    (placed : HasBitmap l) where
  kernel_init-Served : Served (kernel_init l params h) []
  unfolding kernel_init
  kernel_init-Served =
      kheap_init-Served (record h { pmm = frame_alloc_init l params h.pmm })
        (frame_alloc_init-IsValid l h.pmm bytes placed params)

  pub kernel_mallocs-Disjoint :
      {live : List (ℕ × ℕ)} {g : Kheap}
      → Mallocs l params (kernel_init l params h) live g
      → Disjoint live
  kernel_mallocs-Disjoint run =
      (Mallocs-Served l params (kernel_init l params h) kernel_init-Served run).disjoint
