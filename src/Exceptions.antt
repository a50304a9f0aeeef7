-- ===== src/Exceptions.antt =====
-- exceptions/exceptions.c and syscall/syscall.c. A handler is given what the system registers hold, and
-- returns what it prints and whether it goes back to the interrupted code. Its calls of `kprintf` are
-- kept as formats with their arguments.
pub mod Laws
mod Tests
use solace_os.Base.{
  ℕ, zero, suc, ◌+◌, ◌-◌, ◌*◌, ◌/◌, ◌%◌, ◌^◌, Bool, true, false, Option, none, some, List, [], ◌∷◌,
  ◌++◌, ◌==◌, ltb, if◌then◌else◌, codes, add64, u64_mod,
}
use solace_os.Console.{Arg, word, text, Call, call}

-- `saved_registers_t`
pub record SavedRegisters : Type 0 where
  pub regs : ℕ → ℕ
  pub spsr_el1 : ℕ
  pub elr_el1 : ℕ
  pub sp_el0 : ℕ

-- What a handler comes to: it goes back with the registers as they are then, or it never does.
pub data Handled : Type 0 where
  returns : SavedRegisters → List Call → Handled
  halts : List Call → Handled

-- The calls of `kprintf` that a handler makes.
unfoldable pub calls_of : Handled → List Call
calls_of (returns context calls) = calls
calls_of (halts calls) = calls

-- The calls before the endless loop of `panic`.
pub panic : List ℕ → List Call
panic message =
    call (codes "\nKERNEL PANIC: %s\n") (text (some message) ∷ [])
    ∷ call (codes "System halted.\n") []
    ∷ []

-- One round of the loop of `print_registers`.
pub print_pair : ℕ → SavedRegisters → Call
print_pair i context = call (codes "  x%-2d: %016llx   x%-2d: %016llx\n") (
    word i
    ∷ word (context.regs i)
    ∷ word (i + 1)
    ∷ word (if ltb (i + 1) 31 then context.regs (i + 1) else 0)
    ∷ [])

-- The loop, with `n` rounds left.
pub print_pairs : ℕ → ℕ → SavedRegisters → List Call
unfolding print_pair
print_pairs zero i context = []
print_pairs (suc n) i context = print_pair i context ∷ print_pairs n (i + 2) context

-- `for (int i = 0; i < 31; i += 2)` makes 16 rounds.
pub print_registers : SavedRegisters → List Call
unfolding print_pairs
print_registers context =
    call (codes "Saved Registers:\n") [] ∷ print_pairs 16 0 context
    ++ (call (codes "  SPSR_EL1: %016llx\n") (word context.spsr_el1 ∷ [])
        ∷ call (codes "  ELR_EL1:  %016llx\n") (word context.elr_el1 ∷ [])
        ∷ call (codes "  SP_EL0:   %016llx\n") (word context.sp_el0 ∷ [])
        ∷ [])

-- The exception class and the syndrome in a value of `ESR_EL1`.
abbrev pub exception_class : ℕ → ℕ
exception_class esr = esr / 2 ^ 26 % 0x40

abbrev pub syndrome : ℕ → ℕ
syndrome esr = esr % 0x200_0000

-- The classes of BRK and of SVC in AArch64 state.
abbrev pub ec_brk : ℕ
ec_brk = 0x3c

abbrev pub ec_svc : ℕ
ec_svc = 0x15

-- The switch: `ec_str` and `far_valid`.
pub class_entry : ℕ → List ℕ × Bool
class_entry ec =
    if ec == 0x00
    then (codes "Unknown reason", false)
    else if ec == 0x01
    then (codes "Trapped WFI or WFE", false)
    else if ec == 0x0e
    then (codes "Illegal Execution State", false)
    else if ec == 0x11
    then (codes "SVC instruction execution in AArch32 state", false)
    else if ec == 0x15
    then (codes "SVC instruction execution in AArch64 state", false)
    else if ec == 0x18
    then (codes "Trapped MSR, MRS or System instruction execution in AArch64 state", false)
    else if ec == 0x19
    then (codes "Access to SVE functionality trapped", false)
    else if ec == 0x20
    then (codes "Instruction Abort from a lower Exception level (AArch32)", true)
    else if ec == 0x21
    then (codes "Instruction Abort from a lower Exception level (AArch64)", true)
    else if ec == 0x22
    then (codes "PC alignment fault exception", false)
    else if ec == 0x24
    then (codes "Data Abort from a lower Exception level (AArch32)", true)
    else if ec == 0x25
    then (codes "Data Abort from a lower Exception level (AArch64)", true)
    else if ec == 0x26
    then (codes "SP alignment fault exception", false)
    else if ec == 0x28
    then (codes "Trapped floating-point exception (AArch32)", false)
    else if ec == 0x2c
    then (codes "Trapped floating-point exception (AArch64)", false)
    else if ec == 0x30
    then (codes "SError interrupt", false)
    else if ec == 0x31
    then (codes "Breakpoint exception from a lower Exception level (AArch32)", false)
    else if ec == 0x32
    then (codes "Breakpoint exception from a lower Exception level (AArch64)", false)
    else if ec == 0x34
    then (codes "Step exception from a lower Exception level (AArch32)", false)
    else if ec == 0x35
    then (codes "Step exception from a lower Exception level (AArch64)", false)
    else if ec == 0x38
    then (codes "Watchpoint exception from a lower Exception level (AArch32)", false)
    else if ec == 0x39
    then (codes "Watchpoint exception from a lower Exception level (AArch64)", false)
    else if ec == 0x3c
    then (codes "BRK instruction execution in AArch64 state", false)
    else if ec == 0x23
    then (codes "Instruction Abort from current EL", true)
    else if ec == 0x27
    then (codes "Data Abort from current EL", true)
    else (codes "Unhandled Exception Class", false)

-- `context->elr_el1 += 4`
abbrev pub advance_elr : SavedRegisters → SavedRegisters
advance_elr context = record context { elr_el1 = add64 context.elr_el1 4 }

-- `handle_syscall`
unfoldable pub handle_syscall : ℕ → SavedRegisters → SavedRegisters × List Call
handle_syscall svc_imm context = (
  advance_elr context,
  call (codes "Handling syscall: 0x%x\n") (word svc_imm ∷ [])
      ∷ call (codes "Arguments (x0-x3): %016llx %016llx %016llx %016llx\n") (
          word (context.regs 0)
          ∷ word (context.regs 1)
          ∷ word (context.regs 2)
          ∷ word (context.regs 3)
          ∷ [])
      ∷ [],
)

-- The report of `handle_sync_exception` before it panics.
pub report : ℕ → ℕ → SavedRegisters → List Call
unfolding class_entry print_registers
report esr far context =
    let (ec_str, far_valid) = class_entry (exception_class esr) in
    call (codes "\n--- Synchronous Exception Taken ---\n") []
      ∷ call (codes " ESR_EL1: %016llx (EC: 0x%x, ISS: 0x%x)\n")
          (word esr ∷ word (exception_class esr) ∷ word (syndrome esr) ∷ [])
      ∷ call (codes " ELR_EL1: %016llx (Return Address)\n") (word context.elr_el1 ∷ [])
      ∷ call (codes " Type: %s\n") (text (some ec_str) ∷ [])
      ∷ (if far_valid
          then call (codes " FAR_EL1: %016llx (Faulting Virtual Address)\n") (word far ∷ []) ∷ []
          else [])
    ++ (print_registers context ++ (call (codes "-------------------------------------\n") [] ∷ []))

-- `handle_sync_exception`, with what `ESR_EL1` and `FAR_EL1` hold.
unfoldable pub handle_sync_exception : ℕ → ℕ → SavedRegisters → Handled
unfolding handle_syscall report panic
handle_sync_exception esr far context =
    if exception_class esr == ec_brk
    then returns (advance_elr context)
        (call (codes "BRK instruction encountered. Continuing execution.\n") [] ∷ [])
    else if exception_class esr == ec_svc
    then (let (context', calls) = handle_syscall (syndrome esr % 0x1_0000) context in
        returns context' calls)
    else halts (report esr far context ++ panic (codes "Unhandled synchronous exception"))

pub handle_irq : SavedRegisters → Handled
unfolding print_registers
handle_irq context = returns context (
    call (codes "\n--- IRQ Received ---\n") []
      ∷ call (codes " (No GIC driver implemented yet)\n") []
      ∷ print_registers context
    ++ (call (codes "--------------------\n") [] ∷ []))

pub handle_fiq : SavedRegisters → Handled
unfolding print_registers panic
handle_fiq context = halts (
    call (codes "\n--- FIQ Received ---\n") [] ∷ print_registers context
    ++ panic (codes "FIQ handling not implemented"))

pub handle_serror : ℕ → SavedRegisters → Handled
unfolding print_registers panic
handle_serror esr context = halts (
    call (codes "\n--- SError Received ---\n") []
      ∷ call (codes " ESR_EL1: %016llx\n") (word esr ∷ [])
      ∷ print_registers context
    ++ panic (codes "SError handling not implemented"))
