-- ===== src/Frames.antt =====
-- The physical frame allocator, src/memory/frame_alloc.c: a bitmap with one bit for each 4 KiB
-- frame of the managed gigabyte, set when the frame is in use, and three counters.
pub mod Bitmap
pub mod Count
pub mod Alloc
pub mod Counters
pub mod Init
pub mod Kept
pub mod Messages
pub mod Protect
pub mod Ranges
mod Tests
pub mod Valid
use Prim.Native.Nat.{bit_and, bit_or}
use solace_os.Base.{
  Bool-cases, inl, inr, true, false, refl, ap, ◌≡◌, arith, ℕ, zero, suc, ◌+◌, ◌-◌, ◌*◌, ◌/◌, ◌%◌,
  ◌^◌, Bool, not, ◌||◌, Option, none, some, ltb, leb, ◌==◌, if◌then◌else◌, update, uint64_max,
  add64, sub64,
}
use solace_os.Base.Bits.{bit_of}
use solace_os.Memory.{memset, in_range}

abbrev pub page_size : ℕ
page_size = 4096

abbrev pub pmm_ram_base : ℕ
pmm_ram_base = 0x4000_0000

abbrev pub pmm_manageable_size : ℕ
pmm_manageable_size = 1024 * 1024 * 1024

abbrev pub pmm_max_address : ℕ
pmm_max_address = pmm_ram_base + pmm_manageable_size

abbrev pub pmm_total_frames : ℕ
pmm_total_frames = pmm_manageable_size / page_size

-- The statics of the file, and the memory whose frames it hands out. The bitmap is the array of
-- bytes at `_pmm_bitmap_start`, which the pointer `frame_bitmap` of the source holds; `mem` holds the bytes of
-- memory outside of it. `memory_of` and `with_memory` are the memory as a whole.
pub record Pmm : Type 0 where
  pub frame_bitmap : ℕ → ℕ
  pub total_memory : ℕ
  pub free_memory : ℕ
  pub highest_usable_address : ℕ
  pub mem : ℕ → ℕ
  pub bitmap_start : ℕ
  pub bitmap_length : ℕ

-- The bytes of memory, those of the bitmap among them.
abbrev pub memory_of : Pmm → ℕ → ℕ
memory_of s a =
    if in_range s.bitmap_start s.bitmap_length a
    then s.frame_bitmap (a - s.bitmap_start)
    else s.mem a

-- Memory becomes `m`.
abbrev pub with_memory : (ℕ → ℕ) → Pmm → Pmm
with_memory m s = record s {
  mem = m;
  frame_bitmap = λ k. if ltb k s.bitmap_length then m (s.bitmap_start + k) else s.frame_bitmap k;
}

pub memory_of-with_memory : (m : ℕ → ℕ) (s : Pmm) (a : ℕ) → memory_of (with_memory m s) a ≡ m a
memory_of-with_memory m s a = elim (Bool-cases (in_range s.bitmap_start s.bitmap_length a)) [
  | inr e ↦ rw e refl
  | inl e ↦
      let low : ltb (a - s.bitmap_start) s.bitmap_length ≡ true = ground (arith, e) in
      let back : s.bitmap_start + (a - s.bitmap_start) ≡ a = ground (arith, e) in
      rw (e, low) (ap m back)
]

-- `frame_bitmap[bit / 8] |= (1 << (bit % 8))`, stored as a byte.
pub set_bit : ℕ → (ℕ → ℕ) → ℕ → ℕ
set_bit bit bitmap = update (bit / 8) (bit_or (bitmap (bit / 8)) (2 ^ (bit % 8)) % 256) bitmap

-- `frame_bitmap[bit / 8] &= ~(1 << (bit % 8))`: `~` is taken on a 32-bit `int`.
pub clear_bit : ℕ → (ℕ → ℕ) → ℕ → ℕ
clear_bit bit bitmap =
    update (bit / 8) (bit_and (bitmap (bit / 8)) (2 ^ 32 - 1 - 2 ^ (bit % 8)) % 256) bitmap

unfoldable pub test_bit : ℕ → (ℕ → ℕ) → Bool
test_bit bit bitmap = bit_of (bitmap (bit / 8)) (bit % 8)

-- The first frame of a range: `UINT64_MAX` if the range starts below the RAM.
pub start_frame : ℕ → ℕ
start_frame base = if leb pmm_ram_base base then (base - pmm_ram_base) / page_size else uint64_max

-- The last frame of a range, capped at the last managed frame.
pub end_frame : ℕ → ℕ → ℕ
end_frame base size =
    let end_addr = add64 base size in
    let last = if ltb pmm_ram_base end_addr then (end_addr - 1 - pmm_ram_base) / page_size else 0 in
    if leb pmm_total_frames last then pmm_total_frames - 1 else last

-- `if (x >= PAGE_SIZE) x -= PAGE_SIZE`
abbrev pub drop_page : ℕ → ℕ
drop_page x = if leb page_size x then x - page_size else x

-- The body of the loop of `mark_range_used`.
pub mark_used : ℕ → Pmm → Pmm
mark_used i s =
    if not (test_bit i s.frame_bitmap)
    then record s {
      frame_bitmap = set_bit i s.frame_bitmap;
      total_memory = drop_page s.total_memory;
      free_memory = drop_page s.free_memory;
    }
    else s

pub mark_used_loop : ℕ → ℕ → Pmm → Pmm
mark_used_loop zero i s = s
mark_used_loop (suc n) i s = mark_used_loop n (i + 1) (mark_used i s)

-- `for (i = start; i <= end; ++i)` makes `end + 1 - start` rounds.
pub mark_range_used : ℕ → ℕ → Pmm → Pmm
mark_range_used base_addr size s =
    let first = start_frame base_addr in
    if leb pmm_total_frames first
    then s
    else mark_used_loop (end_frame base_addr size + 1 - first) first s

-- The body of the loop of `mark_range_free`: the counters move only if the frame was in use.
pub mark_free : ℕ → Pmm → Pmm
mark_free i s =
    let top = pmm_ram_base + (i + 1) * page_size in
    if test_bit i s.frame_bitmap
    then record s {
      frame_bitmap = clear_bit i s.frame_bitmap;
      total_memory = add64 s.total_memory page_size;
      free_memory = add64 s.free_memory page_size;
      highest_usable_address =
          if ltb s.highest_usable_address top then top else s.highest_usable_address;
    }
    else record s { frame_bitmap = clear_bit i s.frame_bitmap }

pub mark_free_loop : ℕ → ℕ → Pmm → Pmm
mark_free_loop zero i s = s
mark_free_loop (suc n) i s = mark_free_loop n (i + 1) (mark_free i s)

pub mark_range_free : ℕ → ℕ → Pmm → Pmm
mark_range_free base_addr size s =
    let first = start_frame base_addr in
    if leb pmm_total_frames first
    then s
    else mark_free_loop (end_frame base_addr size + 1 - first) first s

-- The fields of `KERNEL_BOOT_PARAMS` that the kernel reads.
pub record BootParams : Type 0 where
  pub kernel_phys_start : ℕ
  pub kernel_phys_end : ℕ

-- The linker's symbols that the allocator reads.
pub record Linker : Type 0 where
  pub kernel_start : ℕ
  pub kernel_end : ℕ
  pub pmm_bitmap_start : ℕ
  pub pmm_bitmap_end : ℕ

-- The kernel's range: from the boot parameters, or from the linker's symbols if there are none.
abbrev pub kernel_range : Linker → Option BootParams → ℕ × ℕ
kernel_range l none = (l.kernel_start, sub64 l.kernel_end l.kernel_start)
kernel_range l (some p) = (p.kernel_phys_start, sub64 p.kernel_phys_end p.kernel_phys_start)

abbrev pub bitmap_size : Linker → ℕ
bitmap_size l = sub64 l.pmm_bitmap_end l.pmm_bitmap_start

-- All frames in use, and nothing counted.
pub reset_frames : Linker → Pmm → Pmm
reset_frames l s = record s {
  frame_bitmap = memset 0 0xff (bitmap_size l) s.frame_bitmap;
  total_memory = 0;
  free_memory = 0;
  highest_usable_address = pmm_ram_base;
  bitmap_start = l.pmm_bitmap_start;
  bitmap_length = bitmap_size l;
}

-- All frames free.
pub open_frames : Linker → Pmm → Pmm
open_frames l s = mark_range_free pmm_ram_base pmm_manageable_size (reset_frames l s)

pub frame_alloc_init : Linker → Option BootParams → Pmm → Pmm
frame_alloc_init l params s =
    let (base, size) = kernel_range l params in
    mark_range_used l.pmm_bitmap_start (bitmap_size l) (mark_range_used base size (open_frames l s))

-- The search of `alloc_frame` from frame `i` on, with `n` frames left; 0 is NULL.
pub alloc_scan : ℕ → ℕ → Pmm → ℕ × Pmm
alloc_scan zero i s = (0, s)
alloc_scan (suc n) i s =
    let rest = alloc_scan n (i + 1) s in
    let frame_addr = pmm_ram_base + i * page_size in
    if not (test_bit i s.frame_bitmap)
    then (
      frame_addr,
      record s {
        frame_bitmap = set_bit i s.frame_bitmap;
        free_memory = sub64 s.free_memory page_size;
        mem = memset frame_addr 0 page_size s.mem;
      },
    )
    else rest

pub alloc_frame : Pmm → ℕ × Pmm
unfolding alloc_scan
alloc_frame s = alloc_scan pmm_total_frames 0 s

-- What `free_frame` finds.
pub data FreeResult : Type 0 where
  freed null_frame invalid unaligned out_of_range double_free : FreeResult

pub free_frame : ℕ → Pmm → FreeResult × Pmm
free_frame addr s =
    if addr == 0
    then (null_frame, s)
    else if ltb addr pmm_ram_base || leb pmm_max_address addr
    then (invalid, s)
    else if not (addr % page_size == 0)
    then (unaligned, s)
    else let frame_idx = (addr - pmm_ram_base) / page_size in
      if leb pmm_total_frames frame_idx
      then (out_of_range, s)
      else if not (test_bit frame_idx s.frame_bitmap)
      then (double_free, s)
      else (
        freed,
        record s {
          frame_bitmap = clear_bit frame_idx s.frame_bitmap;
          free_memory = add64 s.free_memory page_size;
        },
      )

pub pmm_get_total_memory : Pmm → ℕ
pmm_get_total_memory s = s.total_memory

pub pmm_get_free_memory : Pmm → ℕ
pmm_get_free_memory s = s.free_memory

pub pmm_get_highest_usable_address : Pmm → ℕ
pmm_get_highest_usable_address s = s.highest_usable_address
