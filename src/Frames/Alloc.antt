-- ===== src/Frames/Alloc.antt =====
-- `alloc_frame` and `free_frame`.
use solace_os.Base.{
  ℕ, zero, suc, ◌+◌, ◌-◌, ◌*◌, ◌/◌, ◌%◌, ◌<◌, ◌≡◌, ◌≢◌, refl, ◌⊎◌, ◌↔◌, inl, inr, true, false, not,
  ◌&&◌, ◌||◌, arith, ◌==◌, Bool-cases, u64_mod, ==-eq,
}
use solace_os.Memory.{memset}
use solace_os.Frames.{
  Pmm, page_size, pmm_ram_base, pmm_total_frames, test_bit, clear_bit, alloc_scan, alloc_frame,
  FreeResult, freed, null_frame, invalid, unaligned, out_of_range, double_free, free_frame,
}
use solace_os.Frames.Bitmap.{
  set_bit-IsBytes, clear_bit-IsBytes, test_bit-set_bit, test_bit-clear_bit,
}
use solace_os.Frames.Count.{free_frames-le, free_frames-set_bit, free_frames-clear_bit}
use solace_os.Frames.Valid.{IsValid}

abbrev pub frame_address : ℕ → ℕ
frame_address i = pmm_ram_base + i * page_size

-- `p` is the address of frame `i`, which was free in `s`, is in use in `s'` and zeroed; nothing else
-- has changed but the count of free bytes.
pub record Allocated (s : Pmm) (i p : ℕ) (s' : Pmm) : Type 0 where
  pub address : p ≡ frame_address i
  pub managed : i < pmm_total_frames
  pub was_free : test_bit i s.frame_bitmap ≡ false
  pub lowest : (j : ℕ) → j < i → test_bit j s.frame_bitmap ≡ true
  pub bits : (j : ℕ) → test_bit j s'.frame_bitmap ≡ ((i == j) || test_bit j s.frame_bitmap)
  pub free_bytes : s'.free_memory + page_size ≡ s.free_memory
  pub total_kept : s'.total_memory ≡ s.total_memory
  pub highest_kept : s'.highest_usable_address ≡ s.highest_usable_address
  pub zeroed : s'.mem ≡ memset p 0 page_size s.mem
  pub valid : IsValid s'

-- No frame is left: NULL, and the state as it was.
pub record Exhausted (s : Pmm) (p : ℕ) (s' : Pmm) : Type 0 where
  pub null : p ≡ 0
  pub full : (j : ℕ) → j < pmm_total_frames → test_bit j s.frame_bitmap ≡ true
  pub kept : s' ≡ s

abbrev pub Outcome : Pmm → ℕ × Pmm → Type 0
Outcome s (p, s') = Exhausted s p s' ⊎ ((i : ℕ) × Allocated s i p s')

module _ (s : Pmm) (v : IsValid s) where
  alloc_scan_lem :
      (n i : ℕ)
      → i + n ≡ pmm_total_frames
      → ((j : ℕ) → j < i → test_bit j s.frame_bitmap ≡ true)
      → Outcome s (alloc_scan n i s)
  unfolding alloc_scan
  alloc_scan_lem zero i h low =
      inl (record { null = refl; full = λ j l. low j (omega arith); kept = refl })
  alloc_scan_lem (suc n) i h low = elim (Bool-cases (test_bit i s.frame_bitmap)) [
    | inl e ↦ rw e (alloc_scan_lem n (i + 1) (omega arith) (λ j l. below j l e))
    | inr e ↦ rw e (
        inr (
          i,
          record {
            address = refl;
            managed = omega arith;
            was_free = e;
            lowest = low;
            bits = λ j. test_bit-set_bit i j s.frame_bitmap v.bytes;
            free_bytes = omega (
              arith,
              v.counted,
              free_frames-le s.frame_bitmap,
              free_frames-set_bit i s.frame_bitmap v.bytes (omega arith) e,
            );
            total_kept = refl;
            highest_kept = refl;
            zeroed = refl;
            valid = record {
              bytes = set_bit-IsBytes i s.frame_bitmap v.bytes;
              counted = omega (
                arith,
                v.counted,
                free_frames-le s.frame_bitmap,
                free_frames-set_bit i s.frame_bitmap v.bytes (omega arith) e,
              );
            };
          },
        ))
  ]
    where
      below :
          (j : ℕ) → j < i + 1 → test_bit i s.frame_bitmap ≡ true → test_bit j s.frame_bitmap ≡ true
      below j l e = elim (Bool-cases (i == j)) [
        | inl q ↦ rw (← ==-eq i j q) e
        | inr q ↦ low j (ground arith)
      ]

  -- `alloc_frame` on a valid allocator takes the lowest free frame: it returns that frame's address,
  -- sets its bit and no other, counts 4096 free bytes less, zeroes the frame and leaves the rest. If
  -- every frame is in use it returns NULL and changes nothing.
  pub alloc_frame_lem : Outcome s (alloc_frame s)
  unfolding alloc_frame
  alloc_frame_lem = alloc_scan_lem pmm_total_frames 0 (omega arith) (λ j l. absurd (omega arith))

  pub alloc_frame-IsValid : IsValid (alloc_frame s).1
  alloc_frame-IsValid = elim alloc_frame_lem [ inl x ↦ rw x.kept v | inr (i, a) ↦ a.valid ]

-- The frame that an address names to `free_frame`.
abbrev pub frame_index : ℕ → ℕ
frame_index addr = (addr - pmm_ram_base) / page_size

-- `addr` is the address of a managed frame that is in use.
abbrev pub IsUsedFrame : ℕ → Pmm → Type 0
IsUsedFrame addr s =
    (addr ≡ frame_address (frame_index addr))
    × (frame_index addr < pmm_total_frames)
    × (test_bit (frame_index addr) s.frame_bitmap ≡ true)

module _ (addr : ℕ) (s : Pmm) where
  -- What `free_frame` does not free leaves the allocator as it was.
  pub free_frame-keeps : (free_frame addr s).0 ≢ freed → (free_frame addr s).1 ≡ s
  unfolding free_frame
  free_frame-keeps h = ground (arith, h)

  -- `free_frame` frees exactly the addresses of managed frames that are in use.
  pub free_frame-freed_iff : ((free_frame addr s).0 ≡ freed) ↔ IsUsedFrame addr s
  unfolding free_frame
  free_frame-freed_iff = (λ h. ground arith, λ h. ground arith)

  pub free_frame-state :
      (free_frame addr s).0 ≡ freed
      → (free_frame addr s).1 ≡ record s {
        frame_bitmap = clear_bit (frame_index addr) s.frame_bitmap;
        free_memory = (s.free_memory + page_size) % u64_mod;
      }
  unfolding free_frame
  free_frame-state h = ground arith

module _ (addr : ℕ) (s : Pmm) (v : IsValid s) (h : (free_frame addr s).0 ≡ freed) where
  used : IsUsedFrame addr s
  used = (free_frame-freed_iff addr s).0 h

  -- A freed frame, and no other, becomes free.
  pub test_bit-free_frame :
      (j : ℕ)
      → test_bit j (free_frame addr s).1.frame_bitmap
        ≡ (not (frame_index addr == j) && test_bit j s.frame_bitmap)
  test_bit-free_frame j =
      rw (free_frame-state addr s h)
        (test_bit-clear_bit (frame_index addr) j s.frame_bitmap v.bytes)

  pub free_memory-free_frame : (free_frame addr s).1.free_memory ≡ s.free_memory + page_size
  free_memory-free_frame = rw (free_frame-state addr s h) (
      omega (
        arith,
        v.counted,
        used.1,
        free_frames-clear_bit (frame_index addr) s.frame_bitmap v.bytes used.1 used.2,
        free_frames-le (clear_bit (frame_index addr) s.frame_bitmap),
      ))

  freed-IsValid : IsValid (free_frame addr s).1
  freed-IsValid = rw (free_frame-state addr s h) (record {
    bytes = clear_bit-IsBytes (frame_index addr) s.frame_bitmap v.bytes;
    counted = omega (
      arith,
      v.counted,
      used.1,
      free_frames-clear_bit (frame_index addr) s.frame_bitmap v.bytes used.1 used.2,
      free_frames-le (clear_bit (frame_index addr) s.frame_bitmap),
    );
  })

pub FreeResult-cases : (r : FreeResult) → (r ≡ freed) ⊎ (r ≢ freed)
FreeResult-cases freed = inl refl
FreeResult-cases null_frame = inr (λ e. cc)
FreeResult-cases invalid = inr (λ e. cc)
FreeResult-cases unaligned = inr (λ e. cc)
FreeResult-cases out_of_range = inr (λ e. cc)
FreeResult-cases double_free = inr (λ e. cc)

-- `free_frame` keeps the accounting right whatever address it is given.
pub free_frame-IsValid : (addr : ℕ) (s : Pmm) → IsValid s → IsValid (free_frame addr s).1
free_frame-IsValid addr s v = elim (FreeResult-cases (free_frame addr s).0) [
  | inl h ↦ freed-IsValid addr s v h
  | inr h ↦ rw (free_frame-keeps addr s h) v
]
