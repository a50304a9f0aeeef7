-- ===== src/Shell/Tests/Argv.antt =====
-- `argv` in a buffer that holds `a b`.
use solace_os.Base.{ℕ, ◌≡◌, refl, none, some, [], ◌∷◌, update, codes, arith}
use solace_os.Text.Buffer.{strtok_at}
use solace_os.Shell.Line.{parse_args}
use solace_os.Shell.Argv.{parse_args_at}
use solace_os.Shell.Argv.Laws.{Parsed, parse_args_at-Parsed}

abbrev buffer : ℕ → ℕ
buffer = update 0x2000 b'a' (update 0x2001 32 (update 0x2002 b'b' (λ a. 0)))

parse_args_at_run :
    parse_args_at 0x2000 none buffer ≡ some (0x2000 ∷ 0x2002 ∷ [], update 0x2001 0 buffer)
unfolding parse_args_at strtok_at solace_os.Text.advance solace_os.Text.strspn
    solace_os.Text.strpbrk solace_os.Text.strlen
parse_args_at_run = refl

parse_args_at-Parsed_example :
    Parsed (parse_args_at 0x2000 none buffer) (parse_args (codes "a b") none) 0x2000 buffer
parse_args_at-Parsed_example =
    parse_args_at-Parsed 0x2000 (codes "a b") none none buffer
      (unfold solace_os.Text.strlen in omega arith)
      (
        refl,
        (λ e. omega (arith, e)),
        (refl, (λ e. omega (arith, e)), (refl, (λ e. omega (arith, e)), refl)),
      )
