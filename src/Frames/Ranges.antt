-- ===== src/Frames/Ranges.antt =====
-- `mark_range_used` and `mark_range_free`: which frames they mark, and that they keep the invariant.
use solace_os.Base.{
  ℕ, zero, suc, ◌+◌, ◌-◌, ◌*◌, ◌≤◌, ◌<◌, ◌≡◌, ap, ◌∙◌, inl, inr, Bool, true, false, not, ◌&&◌, ◌||◌,
  arith, ltb, leb, Bool-cases, u64_mod,
}
use solace_os.Memory.{in_range}
use solace_os.Frames.{
  Pmm, page_size, pmm_ram_base, pmm_total_frames, test_bit, mark_used, mark_used_loop, mark_free,
  mark_free_loop, start_frame, end_frame, mark_range_used, mark_range_free,
}
use solace_os.Frames.Valid.{
  IsValid, mark_used-IsValid, mark_free-IsValid, test_bit-mark_used, test_bit-mark_free,
}

-- Frame `j` shares an address with the `size` bytes from `base` on.
abbrev pub overlaps : ℕ → ℕ → ℕ → Bool
overlaps base size j =
    ltb base (pmm_ram_base + (j + 1) * page_size)
    && ltb (pmm_ram_base + j * page_size) (base + size)

-- After the loop, exactly the frames of the range are marked beyond those that were.
pub mark_used_loop_lem :
    (n i : ℕ) (s : Pmm)
    → IsValid s
    → i + n ≤ pmm_total_frames
    → IsValid (mark_used_loop n i s)
      × ((j : ℕ)
          → test_bit j (mark_used_loop n i s).frame_bitmap
            ≡ (in_range i n j || test_bit j s.frame_bitmap))
unfolding mark_used_loop
mark_used_loop_lem zero i s v h = (v, λ j. ground arith)
mark_used_loop_lem (suc n) i s v h =
    let v' = mark_used-IsValid i s v (omega arith) in
    let (w, rest) = mark_used_loop_lem n (i + 1) (mark_used i s) v' (omega arith) in
    (w, λ j. rest j ∙ step j)
  where
    step :
        (j : ℕ)
        → (in_range (i + 1) n j || test_bit j (mark_used i s).frame_bitmap)
          ≡ (in_range i (suc n) j || test_bit j s.frame_bitmap)
    step j = rw (test_bit-mark_used i s v j) (ground arith)

pub mark_free_loop_lem :
    (n i : ℕ) (s : Pmm)
    → IsValid s
    → i + n ≤ pmm_total_frames
    → IsValid (mark_free_loop n i s)
      × ((j : ℕ)
          → test_bit j (mark_free_loop n i s).frame_bitmap
            ≡ (not (in_range i n j) && test_bit j s.frame_bitmap))
unfolding mark_free_loop
mark_free_loop_lem zero i s v h = (v, λ j. ground arith)
mark_free_loop_lem (suc n) i s v h =
    let v' = mark_free-IsValid i s v (omega arith) in
    let (w, rest) = mark_free_loop_lem n (i + 1) (mark_free i s) v' (omega arith) in
    (w, λ j. rest j ∙ step j)
  where
    step :
        (j : ℕ)
        → (not (in_range (i + 1) n j) && test_bit j (mark_free i s).frame_bitmap)
          ≡ (not (in_range i (suc n) j) && test_bit j s.frame_bitmap)
    step j = rw (test_bit-mark_free i s v j) (ground arith)

-- The rounds that a loop over a range makes stay below the last managed frame.
rounds-le :
    (base size : ℕ)
    → start_frame base < pmm_total_frames
    → start_frame base + (end_frame base size + 1 - start_frame base) ≤ pmm_total_frames
unfolding end_frame
rounds-le base size h = ground arith

-- The marked indices are those of the frames that overlap the range.
range-overlaps :
    (base size j : ℕ)
    → pmm_ram_base ≤ base
    → 0 < size
    → base + size < u64_mod
    → j < pmm_total_frames
    → in_range (start_frame base) (end_frame base size + 1 - start_frame base) j
      ≡ overlaps base size j
unfolding start_frame end_frame
range-overlaps base size j a b c d = ground arith

module _ (base size : ℕ) (s : Pmm) (v : IsValid s) where
  -- Whatever range is marked used, the accounting stays right.
  pub mark_range_used-IsValid : IsValid (mark_range_used base size s)
  unfolding mark_range_used
  mark_range_used-IsValid = elim (Bool-cases (leb pmm_total_frames (start_frame base))) [
    | inl e ↦ rw e v
    | inr e ↦ rw e (mark_used_loop_lem _ _ s v (rounds-le base size (ground arith))).0
  ]

  pub mark_range_free-IsValid : IsValid (mark_range_free base size s)
  unfolding mark_range_free
  mark_range_free-IsValid = elim (Bool-cases (leb pmm_total_frames (start_frame base))) [
    | inl e ↦ rw e v
    | inr e ↦ rw e (mark_free_loop_lem _ _ s v (rounds-le base size (ground arith))).0
  ]

  module _ (j : ℕ) (above : pmm_ram_base ≤ base) (some_bytes : 0 < size)
      (no_wrap : base + size < u64_mod) (managed : j < pmm_total_frames) where
    beyond : leb pmm_total_frames (start_frame base) ≡ true → overlaps base size j ≡ false
    unfolding start_frame
    beyond e = ground arith

    -- A range that starts in RAM and does not wrap: exactly the frames that it overlaps are marked.
    pub test_bit-mark_range_used :
        test_bit j (mark_range_used base size s).frame_bitmap
        ≡ (overlaps base size j || test_bit j s.frame_bitmap)
    unfolding mark_range_used
    test_bit-mark_range_used = elim (Bool-cases (leb pmm_total_frames (start_frame base))) [
      | inl e ↦ rw (e, beyond e)
      | inr e ↦ rw e (
          (mark_used_loop_lem _ _ s v (rounds-le base size (ground arith))).1 j
          ∙ ap (λ b. b || test_bit j s.frame_bitmap)
              (range-overlaps base size j above some_bytes no_wrap managed))
    ]

    pub test_bit-mark_range_free :
        test_bit j (mark_range_free base size s).frame_bitmap
        ≡ (not (overlaps base size j) && test_bit j s.frame_bitmap)
    unfolding mark_range_free
    test_bit-mark_range_free = elim (Bool-cases (leb pmm_total_frames (start_frame base))) [
      | inl e ↦ rw (e, beyond e)
      | inr e ↦ rw e (
          (mark_free_loop_lem _ _ s v (rounds-le base size (ground arith))).1 j
          ∙ ap (λ b. not b && test_bit j s.frame_bitmap)
              (range-overlaps base size j above some_bytes no_wrap managed))
    ]
