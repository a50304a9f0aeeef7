-- ===== src/Frames/Protect.antt =====
-- Runs of the frame allocator: what `alloc_frame` and `free_frame` may do after boot, in any order.
use solace_os.Base.{
  ℕ, ◌+◌, ◌≤◌, ◌<◌, ◌≡◌, ◌≢◌, sym, ap, ◌∙◌, ◌⊎◌, inl, inr, true, Option, arith, Bool-cases, ==_self,
  ==_of_ne, and_or_absorb, false,
}
use solace_os.Frames.{
  Pmm, Linker, BootParams, page_size, pmm_total_frames, test_bit, alloc_frame, freed, free_frame,
  frame_alloc_init, kernel_range,
}
use solace_os.Frames.Bitmap.{IsBytes}
use solace_os.Frames.Valid.{IsValid}
use solace_os.Frames.Ranges.{overlaps}
use solace_os.Frames.Init.{
  HasBitmap, IsRamRange, frame_alloc_init-IsValid, test_bit-frame_alloc_init,
}
use solace_os.Frames.Alloc.{
  frame_index, Allocated, alloc_frame_lem, alloc_frame-IsValid, free_frame-keeps,
  free_frame-freed_iff, test_bit-free_frame, free_memory-free_frame, free_frame-IsValid,
  FreeResult-cases,
}

-- A run in which no frame that overlaps the range is given to `free_frame`.
pub data Reach (base size : ℕ) (s : Pmm) : Pmm → Type 0 where
  start : Reach base size s s
  alloc : {t : Pmm} → Reach base size s t → Reach base size s (alloc_frame t).1
  free :
      {t : Pmm} (addr : ℕ)
      → Reach base size s t
      → overlaps base size (frame_index addr) ≡ false
      → Reach base size s (free_frame addr t).1

-- Every managed frame that overlaps the range is in use.
abbrev pub Protected : ℕ → ℕ → Pmm → Type 0
Protected base size s =
    (j : ℕ) → j < pmm_total_frames → overlaps base size j ≡ true → test_bit j s.frame_bitmap ≡ true

alloc-Protected :
    (base size : ℕ) (t : Pmm)
    → IsValid t
    → Protected base size t
    → Protected base size (alloc_frame t).1
alloc-Protected base size t v p j h o = elim (alloc_frame_lem t v) [
  | inl x ↦ rw x.kept (p j h o)
  | inr (i, a) ↦ rw (a.bits j, p j h o) (ground arith)
]

free-Protected :
    (base size : ℕ) (t : Pmm) (addr : ℕ)
    → IsValid t
    → overlaps base size (frame_index addr) ≡ false
    → Protected base size t
    → Protected base size (free_frame addr t).1
free-Protected base size t addr v apart p j h o = elim (FreeResult-cases (free_frame addr t).0) [
  | inl e ↦ rw (test_bit-free_frame addr t v e j, ==_of_ne (frame_index addr) j differs) (p j h o)
  | inr e ↦ rw (free_frame-keeps addr t e) (p j h o)
]
  where
    differs : frame_index addr ≢ j
    differs e = let bad : false ≡ true = sym apart ∙ ap (overlaps base size) e ∙ o in cc

module _ {base size : ℕ} {s : Pmm} (v : IsValid s) (p : Protected base size s) where
  Reach-keeps : {t : Pmm} → Reach base size s t → IsValid t × Protected base size t
  Reach-keeps start = (v, p)
  Reach-keeps (alloc {t} r) =
      let (w, q) = Reach-keeps r in (alloc_frame-IsValid t w, alloc-Protected base size t w q)
  Reach-keeps (free {t} addr r apart) =
      let (w, q) = Reach-keeps r in
      (free_frame-IsValid addr t w, free-Protected base size t addr w apart q)

  -- A frame that a run hands out shares no address with the range.
  pub Reach-apart :
      {t : Pmm}
      → Reach base size s t
      → (alloc_frame t).0 ≢ 0
      → ((alloc_frame t).0 + page_size ≤ base) ⊎ (base + size ≤ (alloc_frame t).0)
  Reach-apart {t} r n =
      let (w, q) = Reach-keeps r in
      elim (alloc_frame_lem t w) [
        | inl x ↦ absurd (n x.null)
        | inr (i, a) ↦ elim (Bool-cases (overlaps base size i)) [
          | inl o ↦ let bad = q i a.managed o in absurd (ground (arith, bad, a.was_free))
          | inr o ↦ let e = a.address in ground (arith, o, e)
        ]
      ]

-- After boot no frame of the kernel's range is ever handed out, in any run that frees none.
pub kernel_not_allocated :
    (l : Linker) (params : Option BootParams) (s : Pmm) {t : Pmm}
    → IsBytes s.frame_bitmap
    → HasBitmap l
    → IsRamRange (kernel_range l params)
    → Reach (kernel_range l params).0 (kernel_range l params).1 (frame_alloc_init l params s) t
    → (alloc_frame t).0 ≢ 0
    → ((alloc_frame t).0 + page_size ≤ (kernel_range l params).0)
      ⊎ ((kernel_range l params).0 + (kernel_range l params).1 ≤ (alloc_frame t).0)
kernel_not_allocated l params s b h k r n =
    Reach-apart (frame_alloc_init-IsValid l s b h params) inside r n
  where
    inside :
        Protected (kernel_range l params).0 (kernel_range l params).1 (frame_alloc_init l params s)
    inside j m o = test_bit-frame_alloc_init l s b h params j k m ∙ rw o

module _ (s : Pmm) (v : IsValid s) (n : (alloc_frame s).0 ≢ 0) where
  -- `free_frame` undoes `alloc_frame`: it accepts the frame, and the bitmap's bits and the count of
  -- free bytes are what they were.
  pub free_frame-alloc_frame :
      let (p, s') = alloc_frame s in
      ((free_frame p s').0 ≡ freed)
      × ((free_frame p s').1.free_memory ≡ s.free_memory)
      × ((j : ℕ) → test_bit j (free_frame p s').1.frame_bitmap ≡ test_bit j s.frame_bitmap)
  free_frame-alloc_frame = elim (alloc_frame_lem s v) [
    | inl x ↦ absurd (n x.null)
    | inr (i, a) ↦ undo i a
  ]
    where
      undo :
          (i : ℕ)
          → Allocated s i (alloc_frame s).0 (alloc_frame s).1
          → let (p, s') = alloc_frame s in
            ((free_frame p s').0 ≡ freed)
            × ((free_frame p s').1.free_memory ≡ s.free_memory)
            × ((j : ℕ) → test_bit j (free_frame p s').1.frame_bitmap ≡ test_bit j s.frame_bitmap)
      undo i a =
          let idx : frame_index (alloc_frame s).0 ≡ i = omega (arith, a.address) in
          let ok = (free_frame-freed_iff (alloc_frame s).0 (alloc_frame s).1).1 (
            omega (arith, a.address, idx),
            omega (arith, idx, a.managed),
            rw idx (a.bits i ∙ rw (==_self i)),
          ) in
          (
            ok,
            omega (
              arith,
              free_memory-free_frame (alloc_frame s).0 (alloc_frame s).1 a.valid ok,
              a.free_bytes,
            ),
            λ j.
                test_bit-free_frame (alloc_frame s).0 (alloc_frame s).1 a.valid ok j
                ∙ rw (idx, a.bits j)
                    (and_or_absorb (λ k. test_bit k s.frame_bitmap) i j a.was_free),
          )
