-- ===== src/Frames/Valid.antt =====
-- The invariant of the frame allocator, and the marking of ranges.
use solace_os.Base.{
  ℕ, ◌*◌, ◌<◌, ◌≡◌, sym, inl, inr, not, ◌&&◌, ◌||◌, arith, ◌==◌, Bool-cases, or_absorb,
}
use solace_os.Frames.{Pmm, page_size, pmm_total_frames, clear_bit, test_bit, mark_used, mark_free}
use solace_os.Frames.Bitmap.{
  IsBytes, set_bit-IsBytes, clear_bit-IsBytes, test_bit-set_bit, test_bit-clear_bit,
}
use solace_os.Frames.Count.{
  free_frames, free_frames-le, free_frames-set_bit, free_frames-clear_bit,
  free_frames-clear_bit_clear,
}

-- The bitmap holds bytes, and `free_memory` is the size of the frames whose bit is clear.
pub record IsValid (s : Pmm) : Type 0 where
  pub bytes : IsBytes s.frame_bitmap
  pub counted : s.free_memory ≡ free_frames s.frame_bitmap * page_size

module _ (i : ℕ) (s : Pmm) (v : IsValid s) (h : i < pmm_total_frames) where
  pub mark_used-IsValid : IsValid (mark_used i s)
  unfolding mark_used
  mark_used-IsValid = elim (Bool-cases (test_bit i s.frame_bitmap)) [
    | inl e ↦ rw e v
    | inr e ↦ rw e (record {
      bytes = set_bit-IsBytes i s.frame_bitmap v.bytes;
      counted = ground (arith, v.counted, free_frames-set_bit i s.frame_bitmap v.bytes h e);
    })
  ]

  pub mark_free-IsValid : IsValid (mark_free i s)
  unfolding mark_free
  mark_free-IsValid = elim (Bool-cases (test_bit i s.frame_bitmap)) [
    | inl e ↦ rw e (record {
      bytes = clear_bit-IsBytes i s.frame_bitmap v.bytes;
      counted = omega (
        arith,
        v.counted,
        free_frames-le (clear_bit i s.frame_bitmap),
        free_frames-clear_bit i s.frame_bitmap v.bytes h e,
      );
    })
    | inr e ↦ rw e (record {
      bytes = clear_bit-IsBytes i s.frame_bitmap v.bytes;
      counted = rw (free_frames-clear_bit_clear i s.frame_bitmap v.bytes e) v.counted;
    })
  ]

module _ (i : ℕ) (s : Pmm) (v : IsValid s) where
  pub test_bit-mark_used :
      (j : ℕ) → test_bit j (mark_used i s).frame_bitmap ≡ ((i == j) || test_bit j s.frame_bitmap)
  unfolding mark_used
  test_bit-mark_used j = elim (Bool-cases (test_bit i s.frame_bitmap)) [
    | inl e ↦ rw e (sym (or_absorb (λ k. test_bit k s.frame_bitmap) i j e))
    | inr e ↦ rw e (test_bit-set_bit i j s.frame_bitmap v.bytes)
  ]

  pub test_bit-mark_free :
      (j : ℕ)
      → test_bit j (mark_free i s).frame_bitmap ≡ (not (i == j) && test_bit j s.frame_bitmap)
  unfolding mark_free
  test_bit-mark_free j = elim (Bool-cases (test_bit i s.frame_bitmap)) [
    | inl e ↦ rw e (test_bit-clear_bit i j s.frame_bitmap v.bytes)
    | inr e ↦ rw e (test_bit-clear_bit i j s.frame_bitmap v.bytes)
  ]
