-- ===== src/Kernel/Messages.antt =====
-- boot/kernel.c and `abort` of lib/stdlib_stubs.c: all that is printed between the boot code's jump to
-- `kernel_main` and the end of the kernel.
pub mod Laws
use solace_os.Base.{ℕ, Bool, Option, none, some, List, [], ◌∷◌, ◌++◌, ◌==◌, if◌then◌else◌, codes}
use solace_os.Console.{Call, call}
use solace_os.Frames.{Linker, BootParams, frame_alloc_init}
use solace_os.Frames.Messages.{init_messages}
use solace_os.Heap.{Kheap}
use solace_os.Heap.Messages.{kheap_init_messages}
use solace_os.Shell.Loop.{Session, left, waiting, endless_search, out_of_rounds}
use solace_os.Shell.Messages.{Trace, finished, cut}
use solace_os.Shell.Transcript.{Round, before, shell_messages}
use solace_os.Kernel.{kernel_init, kernel_main, tui_init}

-- `abort`, before it loops.
unfoldable pub abort_messages : List Call
abort_messages = call (codes "ABORT CALLED!\n") [] ∷ []

-- `shutdown`: `hvc` is the platform's firmware, which returns `true` for a function that powers the machine
-- off. Behind the message the processor halts.
unfoldable pub shutdown_messages : (ℕ → Bool) → List Call
shutdown_messages hvc =
    if hvc 0x8400_0008 then [] else call (codes "Shutdown failed, halting CPU.\n") [] ∷ []

-- `kernel_main` before it calls the shell.
unfoldable pub start_messages : Linker → Option BootParams → Kheap → List Call
start_messages l params h =
    (call (codes "SolaceOS starting...\n") []
      ∷ call (codes "Initializing Physical Memory Manager...\n") []
      ∷ init_messages l params h.pmm)
    ++ (call (codes "Initializing Kernel Heap Allocator...\n") []
        ∷ kheap_init_messages (record h { pmm = frame_alloc_init l params h.pmm }))
    ++ (call (codes "Initializing TUI subsystem...\n") [] ∷ tui_init.1)
    ++ (if tui_init.0 == 0
        then []
        else call (codes "Failed to initialize TUI subsystem!\n") [] ∷ [])
    ++ (call (codes "Starting shell...\n") [] ∷ [])

-- What follows the shell: only a session that is left comes back to `kernel_main`.
unfoldable pub end_messages : (ℕ → Bool) → Session → List Call
unfolding shutdown_messages
end_messages hvc (left done rest h) = call (codes "Kernel halting.\n") [] ∷ shutdown_messages hvc
end_messages hvc (waiting done h) = []
end_messages hvc endless_search = []
end_messages hvc out_of_rounds = []

-- `kernel_main`, as far as the rounds and the fuel let one see.
unfoldable pub kernel_messages :
    (ℕ → Bool) → (ℕ → Round) → ℕ → ℕ → Linker → Option BootParams → List ℕ → Kheap → Trace
unfolding start_messages end_messages
kernel_messages hvc r rounds fuel l params input h =
    before (start_messages l params h)
      (elim (shell_messages r rounds fuel input (kernel_init l params h)) [
        | cut calls ↦ cut calls
        | finished calls ↦
            finished (calls ++ end_messages hvc (kernel_main rounds fuel l params input h))
      ])
