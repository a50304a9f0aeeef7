-- ===== src/Frames/Messages.antt =====
-- What the frame allocator prints: the calls of `kprintf` in memory/frame_alloc.c.
use solace_os.Base.{
  ℕ, ◌-◌, ◌/◌, ◌≡◌, refl, inl, inr, true, Option, List, [], ◌∷◌, ◌==◌, if◌then◌else◌, codes,
  Bool-cases,
}
use solace_os.Text.{first_byte, advance}
use solace_os.Console.{Call, call, word, skip_flags, skip_width, read_modifier}
use solace_os.Console.Check.{is_typed, all_typed}
use solace_os.Frames.{
  Pmm, Linker, BootParams, page_size, pmm_ram_base, bitmap_size, frame_alloc_init, alloc_frame,
  free_frame, FreeResult, freed, null_frame, invalid, unaligned, out_of_range, double_free,
}

-- `frame_alloc_init`
unfoldable pub init_messages : Linker → Option BootParams → Pmm → List Call
init_messages l params s =
    let t = frame_alloc_init l params s in
    call (codes "PMM: Initializing Physical Memory Manager...\n") []
    ∷ call (codes "PMM: Bitmap size: %zu bytes, located at %p\n")
        (word (bitmap_size l) ∷ word l.pmm_bitmap_start ∷ [])
    ∷ call (codes "PMM: Initialization complete. Total: %llu KB, Free: %llu KB\n")
        (word (t.total_memory / 1024) ∷ word (t.free_memory / 1024) ∷ [])
    ∷ []

-- `alloc_frame`
unfoldable pub alloc_frame_messages : Pmm → List Call
alloc_frame_messages s =
    if (alloc_frame s).0 == 0
    then call (codes "PMM: ERROR - Out of physical frames!\n") [] ∷ []
    else []

-- The message of `free_frame` for what it finds.
unfoldable pub result_messages : ℕ → FreeResult → List Call
result_messages addr freed = []
result_messages addr null_frame = []
result_messages addr invalid =
    call (codes "PMM: Attempt to free invalid frame at %p\n") (word addr ∷ []) ∷ []
result_messages addr unaligned =
    call (codes "PMM: Attempt to free unaligned address %p\n") (word addr ∷ []) ∷ []
result_messages addr out_of_range =
    call (codes "PMM: Frame index %zu out of range\n")
      (word ((addr - pmm_ram_base) / page_size) ∷ [])
    ∷ []
result_messages addr double_free =
    call (codes "PMM: Warning - double free detected for frame %p\n") (word addr ∷ []) ∷ []

unfoldable pub free_frame_messages : ℕ → Pmm → List Call
unfolding result_messages
free_frame_messages addr s = result_messages addr (free_frame addr s).0

pub init_messages-typed :
    (l : Linker) (params : Option BootParams) (s : Pmm)
    → all_typed (init_messages l params s) ≡ true
unfolding init_messages all_typed is_typed skip_flags skip_width read_modifier first_byte advance
init_messages-typed l params s = refl

pub alloc_frame_messages-typed : (s : Pmm) → all_typed (alloc_frame_messages s) ≡ true
unfolding alloc_frame_messages all_typed is_typed skip_flags skip_width read_modifier first_byte
    advance
alloc_frame_messages-typed s = elim (Bool-cases ((alloc_frame s).0 == 0)) [
  | inl e ↦ rw e refl
  | inr e ↦ rw e refl
]

pub result_messages-typed : (addr : ℕ) (r : FreeResult) → all_typed (result_messages addr r) ≡ true
unfolding result_messages all_typed is_typed skip_flags skip_width read_modifier first_byte advance
result_messages-typed addr freed = refl
result_messages-typed addr null_frame = refl
result_messages-typed addr invalid = refl
result_messages-typed addr unaligned = refl
result_messages-typed addr out_of_range = refl
result_messages-typed addr double_free = refl
