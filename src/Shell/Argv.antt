-- ===== src/Shell/Argv.antt =====
-- `argv` of shell/shell.c as pointers into the buffer of the line, in which `strtok` writes a NUL behind each
-- argument.
pub mod Laws
use solace_os.Base.{ℕ, zero, suc, Option, none, some, List, [], ◌∷◌}
use solace_os.Shell.Line.{max_cmd_len, max_args, space}
use solace_os.Text.Buffer.{strtok_at}

-- The loop over `strtok`, from what a call has come to: at most `n` arguments, and memory behind it.
unfoldable pub read_args_at : ℕ → Option ℕ × Option ℕ × (ℕ → ℕ) → Option (List ℕ × (ℕ → ℕ))
read_args_at zero (token, last, mem) = some ([], mem)
read_args_at (suc n) (none, last, mem) = some ([], mem)
read_args_at (suc n) (some token, last, mem) = elim (strtok_at max_cmd_len none space last mem) [
  | none ↦ none
  | some r ↦ elim (read_args_at n r) [ none ↦ none | some (argv, mem') ↦ some (token ∷ argv, mem') ]
]

-- `argv` for the line at `cmd_buffer`, and memory behind the loop.
unfoldable pub parse_args_at : ℕ → Option ℕ → (ℕ → ℕ) → Option (List ℕ × (ℕ → ℕ))
unfolding read_args_at
parse_args_at cmd_buffer last mem = elim (strtok_at max_cmd_len (some cmd_buffer) space last mem) [
  | none ↦ none
  | some r ↦ read_args_at max_args r
]
