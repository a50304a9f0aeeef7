-- ===== src/Kernel/Messages/Laws.antt =====
-- Every call of `kprintf` from the start of the kernel to its end fits its format.
use solace_os.Base.{
  ℕ, ◌≡◌, refl, Bool, true, Option, List, [], ◌∷◌, ◌++◌, codes, Bool-cases, inl, inr,
}
use solace_os.Text.{first_byte, advance}
use solace_os.Console.{call, skip_flags, skip_width, read_modifier}
use solace_os.Console.Check.{
  is_typed, all_typed, AllFinish, all_typed-AllFinish, all_typed-nil, all_typed-cons,
  all_typed-append,
}
use solace_os.Frames.{Linker, BootParams, frame_alloc_init}
use solace_os.Frames.Messages.{init_messages-typed}
use solace_os.Heap.{Kheap}
use solace_os.Heap.Messages.Laws.{kheap_init_messages-typed}
use solace_os.Shell.Loop.{Session, left, waiting, endless_search, out_of_rounds}
use solace_os.Shell.Messages.Laws.{TypedTrace}
use solace_os.Shell.Messages.{Trace, finished, cut}
use solace_os.Shell.Transcript.{Round, shell_messages}
use solace_os.Shell.Transcript.Laws.{before-TypedTrace, shell_messages-TypedTrace}
use solace_os.Kernel.{kernel_init, kernel_main, tui_init}
use solace_os.Kernel.Messages.{shutdown_messages, start_messages, end_messages, kernel_messages}

-- The single messages.
fixed-typed :
    (all_typed (call (codes "SolaceOS starting...\n") [] ∷ []) ≡ true)
    × (all_typed (call (codes "Initializing Physical Memory Manager...\n") [] ∷ []) ≡ true)
    × (all_typed (call (codes "Initializing Kernel Heap Allocator...\n") [] ∷ []) ≡ true)
    × (all_typed (call (codes "Initializing TUI subsystem...\n") [] ∷ tui_init.1) ≡ true)
    × (all_typed (call (codes "Starting shell...\n") [] ∷ []) ≡ true)
    × (all_typed (call (codes "Kernel halting.\n") [] ∷ []) ≡ true)
    × (all_typed (call (codes "Shutdown failed, halting CPU.\n") [] ∷ []) ≡ true)
unfolding all_typed is_typed skip_flags skip_width read_modifier first_byte advance
fixed-typed = (refl, refl, refl, refl, refl, refl, refl)

shutdown-typed : (hvc : ℕ → Bool) → all_typed (shutdown_messages hvc) ≡ true
unfolding shutdown_messages
shutdown-typed hvc = elim (Bool-cases (hvc 0x8400_0008)) [
  | inl e ↦ rw e all_typed-nil
  | inr e ↦ rw e (fixed-typed.6)
]

end-typed : (hvc : ℕ → Bool) (s : Session) → all_typed (end_messages hvc s) ≡ true
unfolding end_messages
end-typed hvc (left done rest h) = all_typed-cons _ _ (fixed-typed.5) (shutdown-typed hvc)
end-typed hvc (waiting done h) = all_typed-nil
end-typed hvc endless_search = all_typed-nil
end-typed hvc out_of_rounds = all_typed-nil

start-typed :
    (l : Linker) (params : Option BootParams) (h : Kheap)
    → all_typed (start_messages l params h) ≡ true
unfolding start_messages
start-typed l params h =
    all_typed-append _ _
      (all_typed-append _ _
        (all_typed-append _ _
          (all_typed-append _ _
            (all_typed-cons _ _ (fixed-typed.0)
              (all_typed-cons _ _ (fixed-typed.1) (init_messages-typed l params h.pmm)))
            (all_typed-cons _ _ (fixed-typed.2)
              (kheap_init_messages-typed (record h { pmm = frame_alloc_init l params h.pmm }))))
          (fixed-typed.3))
        all_typed-nil)
      (fixed-typed.4)

-- All calls of a trace come to an end, whether it is cut or not.
abbrev pub AllFinishTrace : Trace → Type 0
AllFinishTrace (finished calls) = AllFinish calls
AllFinishTrace (cut calls) = AllFinish calls

-- Whatever is typed, and whatever memory and the boot parameters hold, every call of `kprintf` in a run of
-- `kernel_main` comes to an end and leaves room for the NUL in the buffer: those of the initialization, of the
-- shell with its commands, its `svc` and the heap, and of the shutdown. This holds for the calls seen with any
-- number of rounds and any fuel, so also in a session that does not end. The call that the compiled code
-- makes behind the `svc` of a round is assumed to fit its format, as the empty one of the source does.
pub kernel_messages-AllFinish :
    (hvc : ℕ → Bool) (r : ℕ → Round) (rounds fuel : ℕ) (l : Linker) (params : Option BootParams)
    (input : List ℕ) (h : Kheap)
    → ((n : ℕ) → all_typed ((r n).behind_svc ∷ []) ≡ true)
    → AllFinishTrace (kernel_messages hvc r rounds fuel l params input h)
unfolding kernel_messages
kernel_messages-AllFinish hvc r rounds fuel l params input h fits = finish _ (
    before-TypedTrace _ _ (start-typed l params h) (
      session (shell_messages r rounds fuel input (kernel_init l params h))
        (shell_messages-TypedTrace r rounds fuel input (kernel_init l params h) fits)))
  where
    session :
        (t : Trace)
        → TypedTrace t
        → TypedTrace (elim t as (λ _. Trace) [
          | cut calls ↦ cut calls
          | finished calls ↦
              finished (calls ++ end_messages hvc (kernel_main rounds fuel l params input h))
        ])
    session (cut calls) k = k
    session (finished calls) k =
        all_typed-append _ _ k (end-typed hvc (kernel_main rounds fuel l params input h))

    finish : (t : Trace) → TypedTrace t → AllFinishTrace t
    finish (cut calls) k = all_typed-AllFinish calls k
    finish (finished calls) k = all_typed-AllFinish calls k
