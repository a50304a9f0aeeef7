-- ===== src/Exceptions/Tests.antt =====
-- Runs of the exception handlers, and their theorems for concrete registers.
use solace_os.Base.{ℕ, ◌≡◌, refl, ◌⊎◌, List, [], ◌∷◌, codes}
use solace_os.Console.{word, Call, call}
use solace_os.Console.Check.{AllFinish}
use solace_os.Exceptions.{
  calls_of, SavedRegisters, returns, halts, handle_sync_exception, handle_irq, handle_fiq,
  handle_serror,
}
use solace_os.Exceptions.Laws.{
  Class, Resumes, ResumesWith, handle_sync_exception_lem, handlers-AllFinish,
}

abbrev pub context : SavedRegisters
context = record { regs = λ i. i; spsr_el1 = 0x3c5; elr_el1 = 0x4008_0000; sp_el0 = 0 }

-- SVC #7 and a data abort at the current exception level.
abbrev svc : ℕ
svc = 0x5600_0007

abbrev abort : ℕ
abort = 0x9600_0045

handle_sync_exception_run :
    handle_sync_exception svc 0 context
    ≡ returns
        (record context { elr_el1 = 0x4008_0004 })
        (call (codes "Handling syscall: 0x%x\n") (word 7 ∷ [])
          ∷ call
              (codes "Arguments (x0-x3): %016llx %016llx %016llx %016llx\n")
              (word 0 ∷ word 1 ∷ word 2 ∷ word 3 ∷ [])
          ∷ [])
unfolding handle_sync_exception
handle_sync_exception_run = refl

handle_sync_exception_lem_example :
    (Class svc 0x3c
      × ResumesWith
          (call (codes "BRK instruction encountered. Continuing execution.\n") [])
          context
          (handle_sync_exception svc 0 context))
    ⊎ (Class svc 0x15
        × ResumesWith
            (call (codes "Handling syscall: 0x%x\n") (word 7 ∷ []))
            context
            (handle_sync_exception svc 0 context))
    ⊎ ((¬ Resumes svc)
        × ((calls : List Call) × (handle_sync_exception svc 0 context ≡ halts calls)))
handle_sync_exception_lem_example = handle_sync_exception_lem svc 0 context

handlers-AllFinish_example :
    AllFinish (calls_of (handle_sync_exception abort 0x10 context))
    × AllFinish (calls_of (handle_irq context))
    × AllFinish (calls_of (handle_fiq context))
    × AllFinish (calls_of (handle_serror abort context))
handlers-AllFinish_example = handlers-AllFinish abort 0x10 context
