-- ===== src/Exceptions/Laws.antt =====
-- Which exceptions are resumed, and that the handlers' messages are printed.
use solace_os.Base.{
  ℕ, ◌+◌, ◌/◌, ◌%◌, ◌≡◌, refl, ap, ◌∙◌, ◌⊎◌, inl, inr, true, false, List, [], ◌∷◌, ◌++◌, ◌==◌,
  if◌then◌else◌, arith, Bool-cases, ==-eq, ==-ne, codes,
}
use solace_os.Text.{first_byte, advance}
use solace_os.Console.{Call, call, word, skip_flags, skip_width, read_modifier}
use solace_os.Console.Check.{is_typed, AllFinish, all_typed, all_typed-AllFinish}
use solace_os.Exceptions.{
  calls_of, SavedRegisters, Handled, returns, halts, panic, print_pair, print_pairs,
  print_registers, exception_class, ec_brk, ec_svc, class_entry, syndrome, advance_elr,
  handle_syscall, report, handle_sync_exception, handle_irq, handle_fiq, handle_serror,
}

-- The class of an exception: bits 26 to 31 of `ESR_EL1`.
abbrev pub Class : ℕ → ℕ → Type 0
Class esr n = esr / 0x400_0000 % 0x40 ≡ n

-- The classes of a BRK and of an SVC in AArch64 state.
abbrev pub Resumes : ℕ → Type 0
Resumes esr = Class esr 0x3c ⊎ Class esr 0x15

-- What the interrupted code goes on with: it is four bytes on, and nothing else has changed.
pub record Resumed (before after : SavedRegisters) : Type 0 where
  pub four_on : after.elr_el1 ≡ (before.elr_el1 + 4) % 0x1_0000_0000_0000_0000
  pub same_regs : (i : ℕ) → after.regs i ≡ before.regs i
  pub same_spsr : after.spsr_el1 ≡ before.spsr_el1
  pub same_sp : after.sp_el0 ≡ before.sp_el0

-- The handler goes back to the interrupted code, and its first call of `kprintf` is the one given.
abbrev pub ResumesWith : Call → SavedRegisters → Handled → Type 0
ResumesWith first context r =
    (context' : SavedRegisters) × (calls : List Call) × (r ≡ returns context' (first ∷ calls))
    × Resumed context context'

sync-brk :
    (esr far : ℕ) (context : SavedRegisters)
    → (exception_class esr == ec_brk) ≡ true
    → handle_sync_exception esr far context
      ≡ returns
          (advance_elr context)
          (call (codes "BRK instruction encountered. Continuing execution.\n") [] ∷ [])
unfolding handle_sync_exception
sync-brk esr far context e = rw e refl

sync-svc :
    (esr far : ℕ) (context : SavedRegisters)
    → (exception_class esr == ec_brk) ≡ false
    → (exception_class esr == ec_svc) ≡ true
    → handle_sync_exception esr far context
      ≡ returns (advance_elr context) (handle_syscall (syndrome esr % 0x1_0000) context).1
unfolding handle_sync_exception
sync-svc esr far context e f = rw (e, f) refl

sync-else :
    (esr far : ℕ) (context : SavedRegisters)
    → (exception_class esr == ec_brk) ≡ false
    → (exception_class esr == ec_svc) ≡ false
    → handle_sync_exception esr far context
      ≡ halts (report esr far context ++ panic (codes "Unhandled synchronous exception"))
unfolding handle_sync_exception
sync-else esr far context e f =
    let brk =
      returns (advance_elr context)
        (call (codes "BRK instruction encountered. Continuing execution.\n") [] ∷ []) in
    let svc = returns (advance_elr context) (handle_syscall (syndrome esr % 0x1_0000) context).1 in
    let other = halts (report esr far context ++ panic (codes "Unhandled synchronous exception")) in
    ap (λ b. if b then brk else if exception_class esr == ec_svc then svc else other) e
    ∙ ap (λ b. if b then svc else other) f

advance_elr-Resumed : (context : SavedRegisters) → Resumed context (advance_elr context)
advance_elr-Resumed context = record {
  four_on = refl;
  same_regs = λ i. refl;
  same_spsr = refl;
  same_sp = refl;
}

-- A BRK and an SVC in AArch64 state return to the interrupted code four bytes on, modulo 2 ^ 64, with all
-- other registers as they were. For the SVC the number in its instruction, the low 16 bits of the
-- syndrome, is printed first. Every other synchronous exception halts the kernel.
pub handle_sync_exception_lem :
    (esr far : ℕ) (context : SavedRegisters)
    → (Class esr 0x3c
        × ResumesWith
            (call (codes "BRK instruction encountered. Continuing execution.\n") [])
            context
            (handle_sync_exception esr far context))
      ⊎ (Class esr 0x15
          × ResumesWith
              (call (codes "Handling syscall: 0x%x\n") (word (esr % 0x1_0000) ∷ []))
              context
              (handle_sync_exception esr far context))
      ⊎ ((¬ Resumes esr)
          × ((calls : List Call) × (handle_sync_exception esr far context ≡ halts calls)))
unfolding handle_syscall
handle_sync_exception_lem esr far context = elim (Bool-cases (exception_class esr == ec_brk)) [
  | inl e ↦ inl (
    ==-eq (exception_class esr) ec_brk e,
    (advance_elr context, [], sync-brk esr far context e, advance_elr-Resumed context),
  )
  | inr e ↦ elim (Bool-cases (exception_class esr == ec_svc)) [
    | inl f ↦
        let number : syndrome esr % 0x1_0000 ≡ esr % 0x1_0000 = omega arith in
        inr (
          inl (
            ==-eq (exception_class esr) ec_svc f,
            (
              advance_elr context,
              _,
              sync-svc esr far context e f
                  ∙ ap (λ n. returns (advance_elr context) (handle_syscall n context).1) number,
              advance_elr-Resumed context,
            ),
          ))
    | inr f ↦ inr (
        inr (
          λ r. omega (
            arith,
            r,
            ==-ne (exception_class esr) ec_brk e,
            ==-ne (exception_class esr) ec_svc f,
          ),
          (_, sync-else esr far context e f),
        ))
  ]
]

print_registers-typed : (context : SavedRegisters) → all_typed (print_registers context) ≡ true
unfolding print_registers print_pairs print_pair all_typed is_typed skip_flags skip_width
    read_modifier first_byte advance
print_registers-typed context = refl

report-typed :
    (esr far : ℕ) (context : SavedRegisters)
    → all_typed (report esr far context ++ panic (codes "Unhandled synchronous exception")) ≡ true
unfolding report print_registers print_pairs print_pair panic all_typed is_typed skip_flags
    skip_width read_modifier first_byte advance
report-typed esr far context = elim (Bool-cases (class_entry (exception_class esr)).1) [
  | inl e ↦ rw e refl
  | inr e ↦ rw e refl
]

pub sync-typed :
    (esr far : ℕ) (context : SavedRegisters)
    → all_typed (calls_of (handle_sync_exception esr far context)) ≡ true
unfolding calls_of handle_syscall all_typed is_typed skip_flags skip_width read_modifier first_byte
    advance
sync-typed esr far context = elim (Bool-cases (exception_class esr == ec_brk)) [
  | inl e ↦ ap (λ o. all_typed (calls_of o)) (sync-brk esr far context e)
  | inr e ↦ elim (Bool-cases (exception_class esr == ec_svc)) [
    | inl f ↦ ap (λ o. all_typed (calls_of o)) (sync-svc esr far context e f)
    | inr f ↦
        ap (λ o. all_typed (calls_of o)) (sync-else esr far context e f)
        ∙ report-typed esr far context
  ]
]

-- Every call of `kprintf` by the four handlers, whatever the registers hold, comes to an end, has an
-- argument of the right kind for each directive, and leaves room for the NUL in the buffer.
pub handlers-AllFinish :
    (esr far : ℕ) (context : SavedRegisters)
    → AllFinish (calls_of (handle_sync_exception esr far context))
      × AllFinish (calls_of (handle_irq context))
      × AllFinish (calls_of (handle_fiq context))
      × AllFinish (calls_of (handle_serror esr context))
unfolding calls_of handle_irq handle_fiq handle_serror print_registers print_pairs print_pair panic
    all_typed is_typed skip_flags skip_width read_modifier first_byte advance
handlers-AllFinish esr far context = (
  all_typed-AllFinish (calls_of (handle_sync_exception esr far context))
      (sync-typed esr far context),
  all_typed-AllFinish (calls_of (handle_irq context)) refl,
  all_typed-AllFinish (calls_of (handle_fiq context)) refl,
  all_typed-AllFinish (calls_of (handle_serror esr context)) refl,
)
