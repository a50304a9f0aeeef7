-- ===== src/Frames/Tests.antt =====
-- The frame allocator on the memory map of the linker script, and small runs of its bitmap.
use solace_os.Base.{
  ℕ, ◌+◌, ◌≤◌, ◌≡◌, ◌≢◌, refl, sym, ◌∙◌, ◌⊎◌, ◌↔◌, inl, inr, true, false, none, arith,
}
use solace_os.Frames.{
  Pmm, Linker, page_size, test_bit, set_bit, clear_bit, frame_alloc_init, kernel_range, alloc_frame,
  free_frame, freed, null_frame, invalid, unaligned, double_free,
}
use solace_os.Frames.Bitmap.{IsBytes}
use solace_os.Frames.Valid.{IsValid}
use solace_os.Frames.Init.{
  HasBitmap, IsRamRange, frame_alloc_init-IsValid, test_bit-frame_alloc_init,
}
use solace_os.Frames.Counters.{frame_alloc_init-counters}
use solace_os.Frames.Alloc.{
  Outcome, IsUsedFrame, alloc_frame_lem, free_frame-keeps, free_frame-freed_iff,
}
use solace_os.Frames.Protect.{start, kernel_not_allocated, free_frame-alloc_frame}

-- The symbols as the linker script lays them out for a kernel of 128 KiB before the bitmap.
abbrev linker : Linker
linker = record {
  kernel_start = 0x4008_0000;
  kernel_end = 0x400c_0000;
  pmm_bitmap_start = 0x400a_0000;
  pmm_bitmap_end = 0x400c_0000;
}

-- Before boot: memory that holds 7 everywhere.
abbrev blank : Pmm
blank = record {
  frame_bitmap = λ k. 7;
  total_memory = 0;
  free_memory = 0;
  highest_usable_address = 0;
  mem = λ a. 7;
  bitmap_start = 0x400a_0000;
  bitmap_length = 0x8000;
}

booted : Pmm
booted = frame_alloc_init linker none blank

blank-IsBytes : IsBytes blank.frame_bitmap
blank-IsBytes k = omega arith

linker-HasBitmap : HasBitmap linker
linker-HasBitmap = omega arith

kernel-IsRamRange : IsRamRange (kernel_range linker none)
kernel-IsRamRange = omega arith

booted-IsValid : IsValid booted
unfolding booted
booted-IsValid = frame_alloc_init-IsValid linker blank blank-IsBytes linker-HasBitmap none

test_bit-booted : test_bit 0 booted.frame_bitmap ≡ false
unfolding booted
test_bit-booted =
    test_bit-frame_alloc_init linker blank blank-IsBytes linker-HasBitmap none 0 kernel-IsRamRange
      (omega arith)

alloc_frame-ne-null : (alloc_frame booted).0 ≢ 0
alloc_frame-ne-null e = elim (alloc_frame_lem booted booted-IsValid) [
  | inl x ↦
      let full : test_bit 0 booted.frame_bitmap ≡ true = x.full 0 (omega arith) in
      let bad : false ≡ true = sym test_bit-booted ∙ full in cc
  | inr (i, a) ↦ omega (arith, a.address)
]

kernel_not_allocated_example :
    ((alloc_frame booted).0 + page_size ≤ 0x4008_0000) ⊎ (0x400c_0000 ≤ (alloc_frame booted).0)
kernel_not_allocated_example =
    kernel_not_allocated linker none blank blank-IsBytes linker-HasBitmap kernel-IsRamRange
      (unfold booted in start) alloc_frame-ne-null

alloc_frame_lem_example : Outcome booted (alloc_frame booted)
alloc_frame_lem_example = alloc_frame_lem booted booted-IsValid

test_bit-frame_alloc_init_example :
    test_bit 0x81 (frame_alloc_init linker none blank).frame_bitmap ≡ true
test_bit-frame_alloc_init_example =
    test_bit-frame_alloc_init linker blank blank-IsBytes linker-HasBitmap none 0x81
      kernel-IsRamRange (omega arith)

frame_alloc_init-IsValid_example : IsValid (frame_alloc_init linker none blank)
frame_alloc_init-IsValid_example =
    frame_alloc_init-IsValid linker blank blank-IsBytes linker-HasBitmap none

frame_alloc_init-counters_example :
    ((frame_alloc_init linker none blank).total_memory
      ≡ (frame_alloc_init linker none blank).free_memory)
    × ((frame_alloc_init linker none blank).highest_usable_address ≡ 0x8000_0000)
frame_alloc_init-counters_example =
    frame_alloc_init-counters linker blank blank-IsBytes linker-HasBitmap none

free_frame-freed_iff_example :
    ((free_frame 0x4000_0000 blank).0 ≡ freed) ↔ IsUsedFrame 0x4000_0000 blank
free_frame-freed_iff_example = free_frame-freed_iff 0x4000_0000 blank

free_frame-keeps_example : (free_frame 0x4000_3000 blank).1 ≡ blank
unfolding free_frame test_bit
free_frame-keeps_example = free_frame-keeps 0x4000_3000 blank (λ e. cc)

free_frame-alloc_frame_example :
    let (p, s') = alloc_frame booted in
    ((free_frame p s').0 ≡ freed)
    × ((free_frame p s').1.free_memory ≡ booted.free_memory)
    × ((j : ℕ) → test_bit j (free_frame p s').1.frame_bitmap ≡ test_bit j booted.frame_bitmap)
free_frame-alloc_frame_example = free_frame-alloc_frame booted booted-IsValid alloc_frame-ne-null

-- Bits 0 to 2 of a byte that holds 7 are set, so the first free frame is the fourth.
alloc_frame_run : (alloc_frame blank).0 ≡ 0x4000_3000
unfolding alloc_frame test_bit
alloc_frame_run = refl

set_bit_run : set_bit 11 (λ k. 7) 1 ≡ 15
unfolding set_bit
set_bit_run = refl

clear_bit_run : clear_bit 9 (λ k. 7) 1 ≡ 5
unfolding clear_bit
clear_bit_run = refl

free_frame_run :
    ((free_frame 0x4000_1000 blank).0 ≡ freed)
    × ((free_frame 0x4000_3000 blank).0 ≡ double_free)
    × ((free_frame 0x4000_1008 blank).0 ≡ unaligned)
    × ((free_frame 0x8000_0000 blank).0 ≡ invalid)
    × ((free_frame 0 blank).0 ≡ null_frame)
unfolding free_frame test_bit
free_frame_run = (refl, refl, refl, refl, refl)
