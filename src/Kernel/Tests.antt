-- ===== src/Kernel/Tests.antt =====
-- Runs of the boot code's output, and its theorem at a concrete size.
use solace_os.Base.{
  none, true, ℕ, ◌+◌, arith, zero, suc, false, ◌≡◌, refl, some, List, [], ◌∷◌, ◌%◌, ◌^◌, ltb,
  if◌then◌else◌, codes,
}
use solace_os.Console.{call, unsigned_text}
use solace_os.Uart.{early_debug_print}
use solace_os.Shell.Transcript.{Round}
use solace_os.Console.Check.{all_typed, is_typed}
use solace_os.Frames.{Linker}
use solace_os.Heap.{Kheap, zero_block, align, kmalloc}
use solace_os.Heap.Chain.{head_of}
use solace_os.Heap.Malloc.{Taken}
use solace_os.Kernel.Start.{Started, kmalloc-kernel_init}
use solace_os.Kernel.Messages.{shutdown_messages, kernel_messages}
use solace_os.Kernel.Messages.Laws.{AllFinishTrace, kernel_messages-AllFinish}
use solace_os.Kernel.{kernel_init, size_text, boot_debug_copy}
use solace_os.Kernel.Text.{size_text_lem}

-- What the array holds before is arbitrary.
abbrev stack : ℕ → ℕ
stack a = 7

size_text_run :
    (size_text 40960 stack ≡ some (codes "40960"))
    × (size_text 0 stack ≡ some (codes "0"))
    × (size_text 0x8000_0000 stack ≡ some [])
    × (size_text 0x1_0000_0012 stack ≡ some (codes "18"))
unfolding size_text
size_text_run = (refl, refl, refl, refl)

flags : ℕ → List ℕ
flags zero = []
flags (suc n) = 0 ∷ flags n

boot_debug_copy_run :
    boot_debug_copy 64 stack (flags 40) ≡ some (codes "[BOOT] Copying section: 64 bytes\n", flags 7)
unfolding boot_debug_copy early_debug_print flags
boot_debug_copy_run = refl

size_text_lem_example :
    size_text 40960 stack
    ≡ (if ltb (40960 % 2 ^ 32) (2 ^ 31) then unsigned_text 10 false (40960 % 2 ^ 32) else some [])
size_text_lem_example = size_text_lem 40960 stack

-- The linker's symbols for a kernel of 256 KiB, and memory that holds 7 everywhere.
abbrev linker : Linker
linker = record {
  kernel_start = 0x4008_0000;
  kernel_end = 0x400c_0000;
  pmm_bitmap_start = 0x400a_0000;
  pmm_bitmap_end = 0x400c_0000;
}

abbrev blank : Kheap
blank = record {
  blocks = λ a. zero_block;
  free_list_head = 7;
  heap_start = 7;
  heap_end = 7;
  pmm = record {
    frame_bitmap = λ k. 7;
    total_memory = 0;
    free_memory = 0;
    highest_usable_address = 0;
    mem = λ a. 7;
    bitmap_start = 0x400a_0000;
    bitmap_length = 0x8000;
  };
}

kmalloc-kernel_init_example :
    (pages : List ℕ) × Started (kernel_init linker none blank) pages
    × ((g : Kheap) × (kmalloc 2 100 (kernel_init linker none blank) ≡ some (head_of pages + 48, g))
        × Taken
            (kernel_init linker none blank)
            pages
            (head_of pages ∷ [])
            (align 100)
            (head_of pages)
            g)
kmalloc-kernel_init_example =
    kmalloc-kernel_init linker none blank (λ k. omega arith) (omega arith) (omega arith)
      (omega arith) (omega arith) 100 (omega arith) (omega arith)

-- Firmware that powers the machine off, and firmware that does not.
shutdown_messages_run :
    (shutdown_messages (λ f. true) ≡ [])
    × (shutdown_messages (λ f. false) ≡ call (codes "Shutdown failed, halting CPU.\n") [] ∷ [])
unfolding shutdown_messages
shutdown_messages_run = (refl, refl)

-- A round with the call of the source behind the `svc`.
abbrev round : ℕ → Round
round n = record {
  saved = record { regs = λ i. 7; spsr_el1 = 0x3c5; elr_el1 = 0x4008_0100; sp_el0 = 0 };
  behind_svc = call (codes "") [];
}

kernel_messages-AllFinish_example :
    AllFinishTrace
      (kernel_messages (λ f. false) round 9 2 linker none (codes "alloc 100\nexit\n") blank)
kernel_messages-AllFinish_example =
    kernel_messages-AllFinish (λ f. false) round 9 2 linker none (codes "alloc 100\nexit\n") blank
      (λ n. unfold all_typed is_typed in refl)
