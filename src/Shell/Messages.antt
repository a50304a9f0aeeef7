-- ===== src/Shell/Messages.antt =====
-- What the commands of shell/shell.c print: the calls of `kprintf` that they make themselves, in order.
-- Each function follows the branches of the command in Shell/Commands.
pub mod Commands
pub mod Dump
pub mod Laws
pub mod Rows
use solace_os.Base.{
  ℕ, zero, suc, ◌+◌, ◌-◌, ◌/◌, ◌%◌, Bool, true, false, not, ◌&&◌, ◌||◌, Option, none, some, List,
  [], ◌∷◌, ◌++◌, ◌==◌, if◌then◌else◌, ltb, leb, add64, sub64, u64_mod, codes, length,
}
use solace_os.Text.{strlen, first_byte, strcmp}
use solace_os.Console.{Call, call, word, text}
use solace_os.Frames.{pmm_get_highest_usable_address, pmm_get_total_memory, pmm_get_free_memory}
use solace_os.Heap.{Kheap, kmalloc}
use solace_os.Shell.Address.{is_address_valid}
use solace_os.Shell.Line.{max_cmd_len, read_byte}
use solace_os.Shell.Commands.{load, memory_of, highest_of, number, size_of_args, length_of_args}
use solace_os.Shell.Dispatch.{
  Handler, help, memdump, peek, poke, alloc, free, pmm_info, is_same, exit_name, find_command,
  commands,
}

-- What a part of a session prints: all calls of a part that comes to an end, or those that the fuel lets
-- one see of a part that does not end within it, or that waits for input. With more fuel more of them are
-- seen.
pub data Trace : Type 0 where
  finished cut : List Call → Trace

abbrev pub bad_address_message : List ℕ → List Call
bad_address_message arg =
    call (codes "Error: Invalid address format '%s'\n") (text (some arg) ∷ []) ∷ []

-- `(c >= 32 && c <= 126) ? c : '.'`
abbrev pub printable : ℕ → ℕ
printable c = if leb 32 c && leb c 126 then c else b'.'

-- The two inner loops of `memdump`, with `n` rounds left: the bytes in hexadecimal, and as characters.
unfoldable pub hex_column : ℕ → ℕ → ℕ → ℕ → ℕ → (ℕ → ℕ) → List Call
hex_column zero j i length addr ptr = []
hex_column (suc n) j i length addr ptr =
    (if ltb (add64 i j) length
        then call (codes "%02x ") (word (ptr ((addr + i + j) % u64_mod)) ∷ [])
        else call (codes "   ") [])
      ∷ (if j == 7 then call (codes " ") [] ∷ [] else [])
    ++ hex_column n (j + 1) i length addr ptr

unfoldable pub char_column : ℕ → ℕ → ℕ → ℕ → ℕ → (ℕ → ℕ) → List Call
char_column zero j i length addr ptr = []
char_column (suc n) j i length addr ptr =
    (if ltb (add64 i j) length
      then call (codes "%c") (word (printable (ptr ((addr + i + j) % u64_mod))) ∷ [])
      else call (codes " ") [])
    ∷ char_column n (j + 1) i length addr ptr

-- One round of the loop over the rows.
unfoldable pub row : ℕ → ℕ → ℕ → (ℕ → ℕ) → List Call
unfolding hex_column char_column
row i length addr ptr =
    call (codes "%016llx: ") (word (add64 addr i) ∷ []) ∷ hex_column 16 0 i length addr ptr
    ++ (call (codes " |") [] ∷ char_column 16 0 i length addr ptr ++ (call (codes "|\n") [] ∷ []))

-- `for (size_t i = 0; i < length; i += 16)`; `none` if the fuel does not suffice.
unfoldable pub rows : ℕ → ℕ → ℕ → ℕ → (ℕ → ℕ) → Option (List Call)
unfolding row
rows zero i length addr ptr = none
rows (suc fuel) i length addr ptr =
    let rest = rows fuel (add64 i 16) length addr ptr in
    if ltb i length
    then elim rest [ none ↦ none | some calls ↦ some (row i length addr ptr ++ calls) ]
    else some []

-- The rows that the fuel lets one see.
unfoldable pub rows_within : ℕ → ℕ → ℕ → ℕ → (ℕ → ℕ) → List Call
unfolding row
rows_within zero i length addr ptr = []
rows_within (suc fuel) i length addr ptr =
    let rest = rows_within fuel (add64 i 16) length addr ptr in
    if ltb i length then row i length addr ptr ++ rest else []

abbrev pub dump_message : ℕ → ℕ → Call
dump_message addr n =
    call (codes "Memory dump from 0x%llx (length %zu):\n") (word addr ∷ word n ∷ [])

unfoldable pub memdump_at_messages : ℕ → ℕ → List (List ℕ) → Kheap → Trace
unfolding rows rows_within
memdump_at_messages fuel addr args h = elim (length_of_args args) [
  | none ↦ finished (elim args [
    | [] ↦ []
    | arg ∷ more ↦ call (codes "Error: Invalid length format '%s'\n") (text (some arg) ∷ []) ∷ []
  ])
  | some n ↦
      if n == 0
      then finished []
      else if not (is_address_valid (highest_of h) addr n)
      then finished (
          call (codes "Error: Address range 0x%llx - 0x%llx is not within valid RAM.\n")
            (word addr ∷ word (sub64 (add64 addr n) 1) ∷ [])
          ∷ [])
      else elim (rows fuel 0 n addr (memory_of h)) [
        | none ↦ cut (dump_message addr n ∷ rows_within fuel 0 n addr (memory_of h))
        | some calls ↦ finished (dump_message addr n ∷ calls)
      ]
]

-- `fuel` bounds the rows.
unfoldable pub memdump_messages : ℕ → List (List ℕ) → Kheap → Trace
unfolding memdump_at_messages
memdump_messages fuel (name ∷ arg ∷ args) h = elim (number arg) [
  | none ↦ finished (bad_address_message arg)
  | some addr ↦ memdump_at_messages fuel addr args h
]
memdump_messages fuel _ h = finished (call (codes "Usage: memdump <address> [length]\n") [] ∷ [])

-- The two messages for a size argument that is refused.
unfoldable pub bad_size_message : List (List ℕ) → List Call
bad_size_message [] = []
bad_size_message (arg ∷ args) =
    if not (strlen arg == 1)
    then call (codes "Error: Invalid size format '%s'\n") (text (some arg) ∷ []) ∷ []
    else call (codes "Error: Invalid size '%c'. Use b, h, w, or d.\n") (word (first_byte arg) ∷ [])
      ∷ []

abbrev pub out_of_ram_message : ℕ → ℕ → List Call
out_of_ram_message addr n =
    call (codes "Error: Address 0x%llx is not within valid RAM for size %zu.\n")
      (word addr ∷ word n ∷ [])
    ∷ []

unfoldable pub alignment_message : ℕ → ℕ → List Call
alignment_message addr n =
    if ltb 1 n && not (addr % n == 0)
    then call (codes "Warning: Address 0x%llx is not aligned for size %zu.\n")
        (word addr ∷ word n ∷ [])
      ∷ []
    else []

-- The value, with two digits for each byte.
unfoldable pub value_message : ℕ → ℕ → Call
value_message n value =
    if n == 1
    then call (codes "0x%02llx\n") (word value ∷ [])
    else if n == 2
    then call (codes "0x%04llx\n") (word value ∷ [])
    else if n == 4
    then call (codes "0x%08llx\n") (word value ∷ [])
    else call (codes "0x%016llx\n") (word value ∷ [])

unfoldable pub peek_messages : List (List ℕ) → Kheap → List Call
unfolding bad_size_message alignment_message value_message
peek_messages (name ∷ arg ∷ args) h = elim (number arg) [
  | none ↦ bad_address_message arg
  | some addr ↦ elim (size_of_args args) [
    | none ↦ bad_size_message args
    | some n ↦
        if not (is_address_valid (highest_of h) addr n)
        then out_of_ram_message addr n
        else alignment_message addr n
          ++ (call (codes "Peek at 0x%llx (size %zu): ") (word addr ∷ word n ∷ [])
              ∷ value_message n (load n addr (memory_of h))
              ∷ [])
  ]
]
peek_messages _ h = call (codes "Usage: peek <address> [size: b/h/w/d (default: d)]\n") [] ∷ []

unfoldable pub poke_messages : List (List ℕ) → Kheap → List Call
unfolding bad_size_message alignment_message
poke_messages (name ∷ arg ∷ arg' ∷ args) h = elim (number arg) [
  | none ↦ bad_address_message arg
  | some addr ↦ elim (number arg') [
    | none ↦ call (codes "Error: Invalid value format '%s'\n") (text (some arg') ∷ []) ∷ []
    | some value ↦ elim (size_of_args args) [
      | none ↦ bad_size_message args
      | some n ↦
          if not (is_address_valid (highest_of h) addr n)
          then out_of_ram_message addr n
          else alignment_message addr n
            ++ (call (codes "Poke at 0x%llx (size %zu) with value 0x%llx\n")
                  (word addr ∷ word n ∷ word value ∷ [])
                ∷ [])
    ]
  ]
]
poke_messages _ h =
    call (codes "Usage: poke <address> <value> [size: b/h/w/d (default: d)]\n") [] ∷ []
