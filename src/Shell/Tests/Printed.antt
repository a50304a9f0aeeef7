-- ===== src/Shell/Tests/Printed.antt =====
-- What the shell prints, in the session of the parent module and for a short dump.
use solace_os.Base.{ℕ, ◌+◌, ◌≤◌, ◌≡◌, ◌↔◌, refl, some, List, [], ◌∷◌, arith, codes}
use solace_os.Console.{Call, call, word, text}
use solace_os.Exceptions.{calls_of, handle_sync_exception, handle_syscall}
use solace_os.Shell.Commands.{dump}
use solace_os.Shell.Messages.{finished, rows, row}
use solace_os.Shell.Messages.Rows.{rows-ends_iff}
use solace_os.Shell.Messages.Dump.{shown, rows-dump}
use solace_os.Shell.Line.{read_byte}
use solace_os.Shell.Transcript.{Round, echo, shell_messages}
use solace_os.Shell.Tests.{bare}

-- A round with the call of the source behind the `svc`.
abbrev round : ℕ → Round
round n = record {
  saved = record { regs = λ i. 7; spsr_el1 = 0x3c5; elr_el1 = 0x4008_0100; sp_el0 = 0 };
  behind_svc = call (codes "") [];
}

-- A command that is not in the table, and `exit`.
shell_messages_run :
    shell_messages round 3 0 (codes "x\nexit\n") bare
    ≡ finished (
        call (codes "\nSolaceOS Shell\n") []
        ∷ call (codes "Type 'help' for available commands.\n") []
        ∷ call (codes "Handling syscall: 0x%x\n") (word 0 ∷ [])
        ∷ call
            (codes "Arguments (x0-x3): %016llx %016llx %016llx %016llx\n")
            (word 7 ∷ word 7 ∷ word 7 ∷ word 7 ∷ [])
        ∷ call (codes "") []
        ∷ call (codes "\n> ") []
        ∷ call (codes "%c") (word b'x' ∷ [])
        ∷ call (codes "\n") []
        ∷ call (codes "Unknown command: %s\n") (text (some (codes "x")) ∷ [])
        ∷ call (codes "Handling syscall: 0x%x\n") (word 0 ∷ [])
        ∷ call
            (codes "Arguments (x0-x3): %016llx %016llx %016llx %016llx\n")
            (word 7 ∷ word 7 ∷ word 7 ∷ word 7 ∷ [])
        ∷ call (codes "") []
        ∷ call (codes "\n> ") []
        ∷ call (codes "%c") (word b'e' ∷ [])
        ∷ call (codes "%c") (word b'x' ∷ [])
        ∷ call (codes "%c") (word b'i' ∷ [])
        ∷ call (codes "%c") (word b't' ∷ [])
        ∷ call (codes "\n") []
        ∷ call (codes "Exiting shell.\n") []
        ∷ [])
unfolding shell_messages calls_of handle_sync_exception handle_syscall
    solace_os.Shell.Line.read_line solace_os.Shell.Line.parse_args solace_os.Text.strtok
    solace_os.Text.strspn solace_os.Text.strpbrk solace_os.Text.strcmp solace_os.Text.difference
    solace_os.Shell.Dispatch.find_command solace_os.Shell.Dispatch.name_of
    solace_os.Shell.Dispatch.run_command
shell_messages_run = refl

-- `x`, a backspace and a newline are echoed.
echo_run :
    echo (b'x' ∷ 8 ∷ 8 ∷ 10 ∷ []) []
    ≡ call (codes "%c") (word b'x' ∷ []) ∷ call (codes "\u{8} \u{8}") [] ∷ call (codes "\n") [] ∷ []
unfolding echo read_byte solace_os.Shell.Line.drop_last
echo_run = refl

-- A memory that holds `A` everywhere.
abbrev letters : ℕ → ℕ
letters a = b'A'

rows-ends_iff_example :
    ((fuel : ℕ) × (calls : List Call) × (rows fuel 0 0xffff_ffff_ffff_fff8 0x4000_0100 letters
        ≡ some calls))
    ↔ (0xffff_ffff_ffff_fff8 + 16 ≤ 0x1_0000_0000_0000_0000)
rows-ends_iff_example = rows-ends_iff 0xffff_ffff_ffff_fff8 0x4000_0100 letters (omega arith)

rows-dump_example :
    (fuel : ℕ) × (calls : List Call) × (rows fuel 0 20 0x4000_0100 letters ≡ some calls)
    × (shown calls ≡ dump 20 0x4000_0100 letters)
rows-dump_example = rows-dump 20 0x4000_0100 letters (omega arith) (omega arith)

rows_run : rows 2 0 3 0x4000_0100 letters ≡ some (row 0 3 0x4000_0100 letters)
unfolding rows row
rows_run = refl

shown_run : shown (row 0 3 0x4000_0100 letters) ≡ b'A' ∷ b'A' ∷ b'A' ∷ []
unfolding shown row solace_os.Text.strcmp solace_os.Text.difference
shown_run = refl
