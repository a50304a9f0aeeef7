-- ===== src/Kernel.antt =====
-- boot/kernel.c and ui/tui.c: what `boot_debug_copy` prints, and `kernel_main`. What the kernel prints is in
-- Kernel.Messages.
mod Tests
pub mod Digits
pub mod Mallocs
pub mod Messages
pub mod Reverse
pub mod Start
pub mod Text
use solace_os.Base.{
  ℕ, zero, suc, ◌+◌, ◌-◌, ◌/◌, ◌%◌, ◌^◌, Bool, ◌&&◌, Option, none, some, List, [], ◌∷◌, ◌++◌, ◌==◌,
  ltb, leb, if◌then◌else◌, codes, update,
}
use solace_os.Console.{Call, call, word}
use solace_os.Frames.{Linker, BootParams, frame_alloc_init}
use solace_os.Heap.{Kheap, kheap_init}
use solace_os.Shell.Loop.{Session, shell_loop}
use solace_os.Text.Buffer.{c_string}
use solace_os.Uart.{early_debug_print}

-- `char size_str[16]`
abbrev pub size_str_length : ℕ
size_str_length = 16

-- The loop that writes the digits backwards: `i` and `size_str` behind it; `none` where a byte would
-- go behind the array. The last round writes the NUL.
pub write_backwards : ℕ → ℕ → ℕ → (ℕ → ℕ) → Option (ℕ × (ℕ → ℕ))
write_backwards zero tmp i size_str = none
write_backwards (suc room) tmp i size_str =
    let rest = write_backwards room (tmp / 10) (i + 1) (update i (b'0' + tmp % 10) size_str) in
    if ltb 0 tmp then rest else some (i, update i 0 size_str)

-- One exchange of the loop that reverses the digits.
pub swap : ℕ → ℕ → (ℕ → ℕ) → ℕ → ℕ
swap j k size_str = update k (size_str j) (update j (size_str k) size_str)

-- `for (; j < i / 2; j++)`, with `n` rounds left.
pub reverse_loop : ℕ → ℕ → ℕ → (ℕ → ℕ) → ℕ → ℕ
unfolding swap
reverse_loop zero j i size_str = size_str
reverse_loop (suc n) j i size_str = reverse_loop n (j + 1) i (swap j (i - j - 1) size_str)

-- `(int)size > 0`, where the `int` is the low half of the size in two's complement.
abbrev pub is_positive : ℕ → Bool
is_positive tmp = ltb 0 tmp && ltb tmp (2 ^ 31)

-- `size_str` as `boot_debug_copy` fills it, from what the array holds before.
pub fill_size_str : ℕ → (ℕ → ℕ) → Option (ℕ → ℕ)
unfolding write_backwards reverse_loop
fill_size_str size size_str =
    let tmp = size % 2 ^ 32 in
    if tmp == 0
    then some (update 1 0 (update 0 b'0' size_str))
    else elim (write_backwards size_str_length (if is_positive tmp then tmp else 0) 0 size_str) [
      | none ↦ none
      | some (i, s) ↦ some (reverse_loop (i / 2) 0 i s)
    ]

-- The text of `size_str`.
pub size_text : ℕ → (ℕ → ℕ) → Option (List ℕ)
unfolding fill_size_str c_string
size_text size size_str = elim (fill_size_str size size_str) [
  | none ↦ none
  | some s ↦ c_string size_str_length 0 s
]

-- `boot_debug_copy`: what the UART gets, for the values of its flag register.
pub boot_debug_copy : ℕ → (ℕ → ℕ) → List ℕ → Option (List ℕ × List ℕ)
unfolding size_text
boot_debug_copy size size_str flags =
    elim (early_debug_print (codes "[BOOT] Copying section: ") flags) [
      | none ↦ none
      | some (first, flags') ↦ elim (size_text size size_str) [
        | none ↦ none
        | some t ↦ elim (early_debug_print t flags') [
          | none ↦ none
          | some (second, flags'') ↦ elim (early_debug_print (codes " bytes\n") flags'') [
            | none ↦ none
            | some (third, flags''') ↦ some (first ++ second ++ third, flags''')
          ]
        ]
      ]
    ]

-- `tui_init`: what it returns and what it prints.
abbrev pub tui_init : ℕ × List Call
tui_init = (
  0,
  call (codes "TUI: Initializing...\n") []
      ∷ call (codes "TUI: Using fallback console mode (no framebuffer)\n") []
      ∷ [],
)

-- `tui_write`
pub tui_write : List ℕ → List Call
tui_write [] = []
tui_write (c ∷ data') = call (codes "%c") (word c ∷ []) ∷ tui_write data'

-- `kernel_main` up to the shell, without its messages: the frame allocator and then the heap.
pub kernel_init : Linker → Option BootParams → Kheap → Kheap
kernel_init l params h = kheap_init (record h { pmm = frame_alloc_init l params h.pmm })

-- `kernel_main` without its messages, on what `kgetc_blocking` returns; `rounds` and `fuel` bound the loop
-- of the shell, and the searches of `kmalloc` and the rows of `memdump`.
pub kernel_main : ℕ → ℕ → Linker → Option BootParams → List ℕ → Kheap → Session
unfolding kernel_init
kernel_main rounds fuel l params input h =
    shell_loop rounds fuel none input (kernel_init l params h) []
