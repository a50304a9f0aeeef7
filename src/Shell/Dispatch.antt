-- ===== src/Shell/Dispatch.antt =====
-- The dispatch of `shell_loop`: which command a line runs.
pub mod Laws
use solace_os.Base.{
  ℕ, ◌≡◌, ◌≢◌, ◌↔◌, refl, sym, ap, ◌∙◌, ◌⊎◌, inl, inr, Bool, true, false, not, Option, none, some,
  List, [], ◌∷◌, if◌then◌else◌, arith, Bool-cases,
}
use solace_os.Heap.{Kheap}
use solace_os.Text.{Difference, below, same, above, strcmp}
use solace_os.Text.Laws.{IsCString, strcmp-same_iff}
use solace_os.Shell.Commands.{
  Reply, cmd_memdump, cmd_peek, cmd_poke, cmd_alloc, cmd_free, cmd_pmm_info,
}

-- The handlers of the table.
pub data Handler : Type 0 where
  help memdump peek poke alloc free pmm_info : Handler

-- The `name` of each entry.
unfoldable pub name_of : Handler → List ℕ
name_of help = b'h' ∷ b'e' ∷ b'l' ∷ b'p' ∷ []
name_of memdump = b'm' ∷ b'e' ∷ b'm' ∷ b'd' ∷ b'u' ∷ b'm' ∷ b'p' ∷ []
name_of peek = b'p' ∷ b'e' ∷ b'e' ∷ b'k' ∷ []
name_of poke = b'p' ∷ b'o' ∷ b'k' ∷ b'e' ∷ []
name_of alloc = b'a' ∷ b'l' ∷ b'l' ∷ b'o' ∷ b'c' ∷ []
name_of free = b'f' ∷ b'r' ∷ b'e' ∷ b'e' ∷ []
name_of pmm_info = b'p' ∷ b'm' ∷ b'm' ∷ b'_' ∷ b'i' ∷ b'n' ∷ b'f' ∷ b'o' ∷ []

-- The table that `init_command_table` fills, without its sentinel.
abbrev pub commands : List Handler
commands = help ∷ memdump ∷ peek ∷ poke ∷ alloc ∷ free ∷ pmm_info ∷ []

abbrev pub exit_name : List ℕ
exit_name = b'e' ∷ b'x' ∷ b'i' ∷ b't' ∷ []

-- `strcmp(...) == 0`
abbrev pub is_same : Difference → Bool
is_same (below n) = false
is_same same = true
is_same (above n) = false

-- The loop over the table.
unfoldable pub find_command : List ℕ → List Handler → Option Handler
find_command word [] = none
find_command word (c ∷ cs) =
    let rest = find_command word cs in if is_same (strcmp word (name_of c)) then some c else rest

-- What the shell does with a line.
pub data Outcome : Type 0 where
  idle exited helped unknown_command : Outcome
  replied : Reply → Outcome

-- `commands[i].func(argc, argv)`; `none` if a search of `kmalloc` or the rows of `memdump` do not
-- end within the fuel.
unfoldable pub run_handler : ℕ → Handler → List (List ℕ) → Kheap → Option (Outcome × Kheap)
run_handler fuel help argv h = some (helped, h)
run_handler fuel memdump argv h = elim (cmd_memdump fuel argv h) [
  | none ↦ none
  | some (r, g) ↦ some (replied r, g)
]
run_handler fuel peek argv h = let (r, g) = cmd_peek argv h in some (replied r, g)
run_handler fuel poke argv h = let (r, g) = cmd_poke argv h in some (replied r, g)
run_handler fuel alloc argv h = elim (cmd_alloc fuel argv h) [
  | none ↦ none
  | some (r, g) ↦ some (replied r, g)
]
run_handler fuel free argv h = let (r, g) = cmd_free argv h in some (replied r, g)
run_handler fuel pmm_info argv h = let (r, g) = cmd_pmm_info h in some (replied r, g)

-- The body of the loop behind the parsing of the arguments.
unfoldable pub run_command : ℕ → List (List ℕ) → Kheap → Option (Outcome × Kheap)
run_command fuel [] h = some (idle, h)
run_command fuel (word ∷ args) h =
    if is_same (strcmp word exit_name)
    then some (exited, h)
    else elim (find_command word commands) [
      | none ↦ some (unknown_command, h)
      | some c ↦ run_handler fuel c (word ∷ args) h
    ]
