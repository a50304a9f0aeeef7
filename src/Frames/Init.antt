-- ===== src/Frames/Init.antt =====
-- `frame_alloc_init`: the state that the kernel boots with.
use solace_os.Base.{
  ℕ, ◌+◌, ◌/◌, ◌%◌, ◌≤◌, ◌<◌, ◌≡◌, refl, ◌∙◌, true, false, ◌||◌, Option, arith, u64_mod,
}
use solace_os.Base.Bits.{bit_of-full}
use solace_os.Memory.{in_range}
use solace_os.Memory.Fill.{memset_lem}
use solace_os.Frames.{
  Pmm, Linker, BootParams, pmm_ram_base, pmm_manageable_size, pmm_total_frames, test_bit,
  bitmap_size, kernel_range, reset_frames, open_frames, frame_alloc_init,
}
use solace_os.Frames.Bitmap.{IsBytes}
use solace_os.Frames.Count.{free_frames_all_used}
use solace_os.Frames.Valid.{IsValid}
use solace_os.Frames.Ranges.{
  overlaps, mark_range_used-IsValid, mark_range_free-IsValid, test_bit-mark_range_used,
  test_bit-mark_range_free,
}

-- The bitmap lies above the start of RAM and has a bit for every managed frame.
pub record HasBitmap (l : Linker) : Type 0 where
  pub in_ram : pmm_ram_base ≤ l.pmm_bitmap_start
  pub room : l.pmm_bitmap_start + pmm_total_frames / 8 ≤ l.pmm_bitmap_end
  pub no_wrap : l.pmm_bitmap_end < u64_mod

-- A range of addresses, given by its first address and its size, that starts in RAM, holds
-- something and does not wrap.
pub record IsRamRange (r : ℕ × ℕ) : Type 0 where
  pub in_ram : pmm_ram_base ≤ r.0
  pub some_bytes : 0 < r.1
  pub no_wrap : r.0 + r.1 < u64_mod

bitmap-IsRamRange : (l : Linker) → HasBitmap l → IsRamRange (l.pmm_bitmap_start, bitmap_size l)
bitmap-IsRamRange l h = record {
  in_ram = h.in_ram;
  some_bytes = omega arith;
  no_wrap = omega arith;
}

module _ (l : Linker) (s : Pmm) (bytes : IsBytes s.frame_bitmap) (placed : HasBitmap l) where
  reset-IsBytes : IsBytes (reset_frames l s).frame_bitmap
  unfolding reset_frames
  reset-IsBytes k =
      rw (memset_lem 0 0xff (bitmap_size l) s.frame_bitmap k) (ground (arith, bytes k))

  pub test_bit-reset :
      (j : ℕ) → j < pmm_total_frames → test_bit j (reset_frames l s).frame_bitmap ≡ true
  unfolding reset_frames test_bit
  test_bit-reset j h =
      rw (memset_lem 0 0xff (bitmap_size l) s.frame_bitmap (j / 8), inside)
        (bit_of-full (j % 8) (omega arith))
    where
      inside : in_range 0 (bitmap_size l) (j / 8) ≡ true
      inside = ground arith

  pub reset-IsValid : IsValid (reset_frames l s)
  unfolding reset_frames
  reset-IsValid = record {
    bytes = unfold reset_frames in reset-IsBytes;
    counted = omega (arith, free_frames_all_used (reset_frames l s).frame_bitmap test_bit-reset);
  }

  open-IsValid : IsValid (open_frames l s)
  unfolding open_frames
  open-IsValid = mark_range_free-IsValid _ _ _ reset-IsValid

  test_bit-open : (j : ℕ) → j < pmm_total_frames → test_bit j (open_frames l s).frame_bitmap ≡ false
  unfolding open_frames
  test_bit-open j h =
      test_bit-mark_range_free pmm_ram_base pmm_manageable_size (reset_frames l s) reset-IsValid j
        (omega arith) (omega arith) (omega arith) h
      ∙ rw (inside) refl
    where
      inside : overlaps pmm_ram_base pmm_manageable_size j ≡ true
      inside = ground arith

  -- `frame_alloc_init` leaves the accounting right, whatever the kernel's range is.
  pub frame_alloc_init-IsValid :
      (params : Option BootParams) → IsValid (frame_alloc_init l params s)
  unfolding frame_alloc_init
  frame_alloc_init-IsValid params =
      mark_range_used-IsValid _ _ _ (mark_range_used-IsValid _ _ _ open-IsValid)

  -- After `frame_alloc_init` the frames in use are exactly those that overlap the kernel's range or
  -- the bitmap.
  pub test_bit-frame_alloc_init :
      (params : Option BootParams) (j : ℕ)
      → IsRamRange (kernel_range l params)
      → j < pmm_total_frames
      → test_bit j (frame_alloc_init l params s).frame_bitmap ≡ (
          overlaps (kernel_range l params).0 (kernel_range l params).1 j
          || overlaps l.pmm_bitmap_start (bitmap_size l) j)
  unfolding frame_alloc_init
  test_bit-frame_alloc_init params j k h =
      test_bit-mark_range_used _ _ _ (mark_range_used-IsValid _ _ _ open-IsValid) j b.in_ram
        b.some_bytes b.no_wrap h
      ∙ rw
          (
            test_bit-mark_range_used (kernel_range l params).0 (kernel_range l params).1
                (open_frames l s) open-IsValid j k.in_ram k.some_bytes k.no_wrap h,
            test_bit-open j h,
          )
          (ground arith)
    where
      b : IsRamRange (l.pmm_bitmap_start, bitmap_size l)
      b = bitmap-IsRamRange l placed
