-- ===== src/Frames/Counters.antt =====
-- The counters `total_memory` and `highest_usable_address` under `frame_alloc_init`.
use solace_os.Base.{
  ℕ, zero, suc, ◌+◌, ◌*◌, ◌≤◌, ◌<◌, ◌≡◌, refl, ◌∙◌, inl, inr, true, Option, arith, leb, Bool-cases,
  ==_of_ne,
}
use solace_os.Frames.{
  Pmm, Linker, BootParams, page_size, pmm_ram_base, pmm_total_frames, pmm_max_address, test_bit,
  mark_used, mark_used_loop, mark_free, mark_free_loop, mark_range_used, mark_range_free,
  start_frame, end_frame, reset_frames, open_frames, frame_alloc_init,
}
use solace_os.Frames.Bitmap.{IsBytes}
use solace_os.Frames.Valid.{IsValid, mark_free-IsValid, test_bit-mark_free}
use solace_os.Frames.Init.{HasBitmap, reset-IsValid, test_bit-reset}

-- Both counters agree.
abbrev Agree : Pmm → Type 0
Agree s = s.total_memory ≡ s.free_memory

mark_used_loop-Agree : (n i : ℕ) (s : Pmm) → Agree s → Agree (mark_used_loop n i s)
unfolding mark_used_loop
mark_used_loop-Agree zero i s h = h
mark_used_loop-Agree (suc n) i s h = mark_used_loop-Agree n (i + 1) (mark_used i s) step
  where
    step : Agree (mark_used i s)
    step = unfold mark_used in ground arith

mark_free_loop-Agree : (n i : ℕ) (s : Pmm) → Agree s → Agree (mark_free_loop n i s)
unfolding mark_free_loop
mark_free_loop-Agree zero i s h = h
mark_free_loop-Agree (suc n) i s h = mark_free_loop-Agree n (i + 1) (mark_free i s) step
  where
    step : Agree (mark_free i s)
    step = unfold mark_free in ground arith

mark_range_used-Agree : (base size : ℕ) (s : Pmm) → Agree s → Agree (mark_range_used base size s)
unfolding mark_range_used
mark_range_used-Agree base size s h = elim (Bool-cases (leb pmm_total_frames (start_frame base))) [
  | inl e ↦ rw e h
  | inr e ↦ rw e (mark_used_loop-Agree _ _ s h)
]

mark_range_free-Agree : (base size : ℕ) (s : Pmm) → Agree s → Agree (mark_range_free base size s)
unfolding mark_range_free
mark_range_free-Agree base size s h = elim (Bool-cases (leb pmm_total_frames (start_frame base))) [
  | inl e ↦ rw e h
  | inr e ↦ rw e (mark_free_loop-Agree _ _ s h)
]

-- `mark_range_used` does not touch the highest address.
mark_used_loop-highest :
    (n i : ℕ) (s : Pmm) → (mark_used_loop n i s).highest_usable_address ≡ s.highest_usable_address
unfolding mark_used_loop
mark_used_loop-highest zero i s = refl
mark_used_loop-highest (suc n) i s = mark_used_loop-highest n (i + 1) (mark_used i s) ∙ step
  where
    step : (mark_used i s).highest_usable_address ≡ s.highest_usable_address
    step = unfold mark_used in ground arith

mark_range_used-highest :
    (base size : ℕ) (s : Pmm)
    → (mark_range_used base size s).highest_usable_address ≡ s.highest_usable_address
unfolding mark_range_used
mark_range_used-highest base size s = elim (Bool-cases (leb pmm_total_frames (start_frame base))) [
  | inl e ↦ rw e
  | inr e ↦ rw e (mark_used_loop-highest _ _ s)
]

-- Freeing frames that are in use, one after another, moves the highest address to the end of the
-- last.
mark_free_loop-highest :
    (n i : ℕ) (s : Pmm)
    → IsValid s
    → i + n ≤ pmm_total_frames
    → ((j : ℕ) → i ≤ j → j < i + n → test_bit j s.frame_bitmap ≡ true)
    → s.highest_usable_address ≡ pmm_ram_base + i * page_size
    → (mark_free_loop n i s).highest_usable_address ≡ pmm_ram_base + (i + n) * page_size
unfolding mark_free_loop
mark_free_loop-highest zero i s v h used e = omega arith
mark_free_loop-highest (suc n) i s v h used e =
    mark_free_loop-highest n (i + 1) (mark_free i s) (mark_free-IsValid i s v (omega arith))
      (omega arith) later step
    ∙ omega arith
  where
    step : (mark_free i s).highest_usable_address ≡ pmm_ram_base + (i + 1) * page_size
    step = unfold mark_free in ground (arith, used i (omega arith) (omega arith))

    later : (j : ℕ) → i + 1 ≤ j → j < i + 1 + n → test_bit j (mark_free i s).frame_bitmap ≡ true
    later j a b =
        test_bit-mark_free i s v j
        ∙ rw (==_of_ne i j (omega arith), used j (omega arith) (omega arith))

module _ (l : Linker) (s : Pmm) (bytes : IsBytes s.frame_bitmap) (placed : HasBitmap l) where
  open-highest : (open_frames l s).highest_usable_address ≡ pmm_max_address
  unfolding open_frames mark_range_free start_frame end_frame
  open-highest =
      mark_free_loop-highest pmm_total_frames 0 (reset_frames l s) (reset-IsValid l s bytes placed)
        (omega arith) (λ j a b. test_bit-reset l s bytes placed j (omega arith))
        (unfold reset_frames in refl)

  -- After `frame_alloc_init` the total is what is free, and the highest address is the end of the
  -- managed gigabyte, whatever RAM the machine has.
  pub frame_alloc_init-counters :
      (params : Option BootParams)
      → ((frame_alloc_init l params s).total_memory ≡ (frame_alloc_init l params s).free_memory)
        × ((frame_alloc_init l params s).highest_usable_address ≡ pmm_max_address)
  unfolding frame_alloc_init
  frame_alloc_init-counters params = (
    mark_range_used-Agree _ _ _ (mark_range_used-Agree _ _ _ opened),
    mark_range_used-highest _ _ _ ∙ mark_range_used-highest _ _ _ ∙ open-highest,
  )
    where
      opened : Agree (open_frames l s)
      opened = unfold open_frames reset_frames in mark_range_free-Agree _ _ _ refl
