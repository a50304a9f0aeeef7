-- ===== src/Lib.antt =====
-- SolaceOS, a small kernel for AArch64: its memory management, its strings and numbers, its console and
-- UART, its exception handlers, and its shell.
--
-- The parts and how they interact. `src/boot/kernel.c` starts the frame allocator, then the heap, then
-- the shell. The frame allocator (`src/memory/frame_alloc.c`) hands out frames of 4096 bytes of the
-- gigabyte at 0x40000000, with a bit for each. The heap (`src/memory/kheap.c`) takes frames and cuts
-- them into blocks. The shell (`src/shell/shell.c`) reads a line, takes it apart with `strtok`
-- (`src/lib/string.c`), reads the numbers in it (`src/lib/stdlib_stubs.c`), checks addresses against
-- the frame allocator's highest address, and reads and writes memory or calls the heap. All print with
-- `kprintf` (`src/lib/stdio.c`), which sends its buffer byte by byte through `src/lib/uart.c`; so do
-- the exception handlers (`src/exceptions/exceptions.c`), one of which passes on system calls
-- (`src/syscall/syscall.c`).
--
-- Which file is about which part:
--   Base        names, 64-bit words (Base.Words), Boolean tests (Base.Tests), bits of a byte (Base.Bits),
--               the bytes of a literal (Base.Codes)
--   Memory      `memset` and `memcpy` on bytes
--   Frames      `src/memory/frame_alloc.c`: the record `Pmm` holds its statics and the bytes of memory;
--               `mark_range_used`, `mark_range_free`, `frame_alloc_init`, `alloc_frame`, `free_frame`
--               have the names of the source. Below it: Bitmap and Count (bits), Ranges (the frames of a
--               range), Valid, Init, Counters, Alloc, Protect, Kept (what stays as it is), Messages (what it
--               prints)
--   Heap        `src/memory/kheap.c`: the record `Kheap` holds its statics, the headers by address, and
--               the `Pmm`. Inlined parts of `kmalloc` and `expand_heap` have names of their own:
--               `find_fit` (the search), `split` and `carve` (the split), `place` (all after the search),
--               `expand_loop`, `link_frame`, `merge_back`, `absorb`. Below it: Chain and Links (doubly
--               linked lists), FreeList, Layout (blocks that do not overlap), Valid, Split, FirstFit,
--               Malloc, Merge, Loose, Coalesce, Free, RoundTrip; Snoc, Grow, Expand and Pages (the loop of
--               `expand_heap`), Start (`kheap_init`), Retry (`kmalloc` with an expansion); Tail, Place,
--               MergeBack, Merged, Joining, Total (`expand_heap` on every branch), Dropped, Always
--               (`kmalloc` on every branch), Bytes (what its `memset` does to the bitmap), Runs (calls of
--               `kmalloc` in a row), Kept (no frame is freed), Messages (what it prints)
--   Text        the rest of `src/lib/string.c`. Below it: Laws, Tokens, and Buffer (`strtok` on
--               memory, with the NUL that it writes)
--   Number      `src/lib/stdlib_stubs.c`. Below it: Value, and Plain (strings of digits)
--   Uart        `src/lib/uart.c`, with the loops that send to and read from it: `uart_puts` (the end of
--               `kprintf`), `early_debug_print`, `kgetc_blocking`. Below it: Output and Input
--   Console     `kprintf` of `src/lib/stdio.c`: `kprintf_loop` (the loop over the format), `put_specifier`
--               (the switch), `put_arg` (its cases), `print` (with the output loop). Below it: Buffer (no
--               directive overruns the buffer), Typed (formats and arguments that fit), Check (a test for
--               that), Digits, Overrun, Sent
--   Exceptions  `src/exceptions/exceptions.c` and `src/syscall/syscall.c`. Below it: Laws
--   Kernel      `src/boot/kernel.c` and `src/ui/tui.c`. Below it: Digits, Reverse and Text
--               (`boot_debug_copy`), Start (the heap when the kernel has started), Mallocs (calls of `kmalloc`
--               from then on), Messages (all that is printed, with
--               `shutdown` and `abort`)
--   Shell       `src/shell/shell.c`: Address (`is_address_valid`), Line (the reading and the splitting of
--               a line in `shell_loop`), Commands (`cmd_peek` and the others), Dispatch (the table and
--               the rest of the body of the loop), Loop (`shell_loop` itself); Messages (what `memdump`, `peek` and `poke` print, with Rows and Dump about
--               the loop of `memdump`), Transcript (what a whole session prints), Argv (`argv` as pointers into
--               the buffer of the line)
-- The modules named Tests hold runs at fixed inputs and the theorems applied to concrete states.
--
-- Numbers. Addresses and sizes are natural numbers. Where a sum can leave 64 bits the wrap-around is
-- written out: `add64`, `sub64`, `u64_mod`. A sum of the address of a block and an offset inside it is
-- written without it. A byte is a number that the theorems assume to be below 256 where they need it.
-- An argument of `kprintf` is a word of 64 bits, of which `%d` reads the low 32 in two's complement.
--
-- Memory. The bytes are a function from addresses, in `Pmm`, and those of the bitmap another; `memory_of`
-- and `with_memory` of Frames read and write both as one memory, which is what `peek`, `memdump` and `poke`
-- work on. The headers of the heap are seen apart from the bytes, as records at the addresses where they
-- start; `memset`, the only write of the heap to memory that is not a header, changes headers and bytes. A
-- merge of pages on both sides of the kernel makes a block that reaches over the kernel's image and the bitmap
-- in it. What the `memset` of `kmalloc` then does to the bitmap is in Heap.Bytes (`kmalloc_bytes`, which
-- `cmd_alloc` calls); what it does to the code of the kernel is outside of the model, so theorems on calls in
-- a row are about those that clear nothing there. What a write of `poke` does to a header of the heap or to
-- the code of the kernel is outside of the model too, and so is what a `free` of an address that is no block
-- makes of the bytes there. The buffers on the stack, of `kprintf` and of `boot_debug_copy`, are a list of the
-- bytes written so far and an array.
--
-- Devices. The values that the registers of the UART are read with are a list, given in advance, and
-- what it gets is the list of the bytes stored to its data register. `ESR_EL1` and `FAR_EL1` are
-- arguments of the handlers.
--
-- Loops and fuel. Loops over strings, frames and pages are structural. The search of the free list
-- takes fuel, and `kmalloc` returns `none` if a search does not end within it; one round for each block
-- of the free list and one more are enough (Heap.FirstFit), or two more where the heap may be expanded
-- (Heap.Always). The rows of `memdump` take fuel too, and need a round for each row (Shell.Messages.Rows).
-- The loop of `kprintf` takes the length of the format and one more, which is enough (Console.Typed); the
-- loops over digits take the bytes left in their arrays, and stop with `none` where a byte would go
-- outside. The loop of the shell takes rounds, one more than there are bytes of input (Shell.Loop). The
-- line, and what `kgetc_blocking` returns, are read from the list of what comes in; `none` is a loop that
-- still waits. `strtok` on memory reads at most 128 bytes for a string, the size of the buffer (Shell.Argv).
--
-- Messages. What the frame allocator, the heap and the shell do and what they print are separate
-- definitions with the same guards, so that the state of the one does not carry the text of the other.
-- A message is the call of `kprintf` with its format and arguments.
--
-- Not modelled: the assembly of `src/boot` and `src/exceptions`; and what a write to
-- memory does to the code of the kernel (see Memory). The handler of the `svc` at the start of each round of
-- the shell skips an instruction; the call of `kprintf` behind it, which may lose the address of its format by
-- that, is a parameter, as are what the vector code saves, the firmware that `shutdown` calls and the symbols
-- of the linker script, with what the theorems need of these as hypotheses.
pub mod Base
pub mod Memory
pub mod Frames
pub mod Heap
pub mod Text
pub mod Number
pub mod Uart
pub mod Console
pub mod Exceptions
pub mod Kernel
pub mod Shell
