-- ===== src/Shell/Transcript.antt =====
-- What a session of the shell prints: the other commands with the messages of the heap, the echo of the
-- line, and the loop.
pub mod Laws
use solace_os.Base.{
  ℕ, zero, suc, ◌/◌, Bool, true, false, ◌&&◌, ◌||◌, Option, none, some, List, [], ◌∷◌, ◌++◌, ◌-◌,
  ◌==◌, if◌then◌else◌, ltb, leb, codes, length,
}
use solace_os.Text.{strcmp}
use solace_os.Console.{Call, call, word, text}
use solace_os.Frames.{pmm_get_highest_usable_address, pmm_get_total_memory, pmm_get_free_memory}
use solace_os.Exceptions.{SavedRegisters, calls_of, handle_sync_exception}
use solace_os.Heap.{Kheap, kmalloc}
use solace_os.Heap.Messages.{kmalloc_messages, kfree_messages}
use solace_os.Shell.Line.{max_cmd_len, read_byte, read_line, parse_args}
use solace_os.Shell.Commands.{number}
use solace_os.Shell.Dispatch.{
  Handler, help, memdump, peek, poke, alloc, free, pmm_info, is_same, exit_name, find_command,
  commands, Outcome, idle, exited, helped, unknown_command, replied, run_command,
}
use solace_os.Shell.Messages.{
  Trace, finished, cut, memdump_messages, peek_messages, poke_messages, bad_address_message,
}

abbrev bad_size_number_message : List ℕ → List Call
bad_size_number_message arg = call (codes "Error: Invalid size '%s'\n") (text (some arg) ∷ []) ∷ []

-- `cmd_alloc`; cut if a search of `kmalloc` does not end within the fuel.
unfoldable pub alloc_messages : ℕ → List (List ℕ) → Kheap → Trace
alloc_messages fuel (name ∷ arg ∷ args) h = elim (number arg) [
  | none ↦ finished (bad_size_number_message arg)
  | some size ↦
      if size == 0 then finished (bad_size_number_message arg) else elim (kmalloc fuel size h) [
        | none ↦ cut (kmalloc_messages fuel size h)
        | some (ptr, h') ↦ finished (
            kmalloc_messages fuel size h
            ++ (if ptr == 0
                then call (codes "Allocation failed!\n") [] ∷ []
                else call (codes "Allocated %zu bytes at 0x%p\n") (word size ∷ word ptr ∷ []) ∷ []))
      ]
]
alloc_messages fuel _ h = finished (call (codes "Usage: alloc <size>\n") [] ∷ [])

unfoldable pub free_messages : List (List ℕ) → Kheap → List Call
free_messages (name ∷ arg ∷ args) h = elim (number arg) [
  | none ↦ bad_address_message arg
  | some addr ↦ call (codes "Freeing memory at 0x%p\n") (word addr ∷ []) ∷ kfree_messages addr h
]
free_messages _ h = call (codes "Usage: free <address>\n") [] ∷ []

unfoldable pub help_messages : List Call
help_messages =
    call (codes "Available commands:\n") []
    ∷ call (codes "  help          - Display this help message\n") []
    ∷ call (codes "  memdump <addr> [len] - Dump memory contents (default len=256)\n") []
    ∷ call (codes "  peek <addr> [sz] - Read value from memory (sz=b/h/w/d, default=d)\n") []
    ∷ call (codes "  poke <addr> <val> [sz] - Write value to memory (sz=b/h/w/d, default=d)\n") []
    ∷ call (codes "  alloc <size>  - Allocate memory of given size\n") []
    ∷ call (codes "  free <addr>   - Free previously allocated memory\n") []
    ∷ call (codes "  pmm_info      - Display Physical Memory Manager info\n") []
    ∷ []

unfoldable pub pmm_info_messages : Kheap → List Call
pmm_info_messages h =
    call (codes "Physical Memory Manager Info:\n") []
    ∷ call (codes "  Total Usable Memory: %llu KB\n")
        (word (pmm_get_total_memory h.pmm / 1024) ∷ [])
    ∷ call (codes "  Free Memory:         %llu KB\n") (word (pmm_get_free_memory h.pmm / 1024) ∷ [])
    ∷ call (codes "  Highest Usable Addr: 0x%llx\n")
        (word (pmm_get_highest_usable_address h.pmm) ∷ [])
    ∷ []

-- The handlers of the table; `fuel` bounds the searches of `kmalloc` and the rows of `memdump`.
unfoldable pub handler_messages : ℕ → Handler → List (List ℕ) → Kheap → Trace
unfolding alloc_messages free_messages help_messages pmm_info_messages
handler_messages fuel help argv h = finished help_messages
handler_messages fuel memdump argv h = memdump_messages fuel argv h
handler_messages fuel peek argv h = finished (peek_messages argv h)
handler_messages fuel poke argv h = finished (poke_messages argv h)
handler_messages fuel alloc argv h = alloc_messages fuel argv h
handler_messages fuel free argv h = finished (free_messages argv h)
handler_messages fuel pmm_info argv h = finished (pmm_info_messages h)

-- The body of the loop behind the parsing of the arguments.
unfoldable pub command_messages : ℕ → List (List ℕ) → Kheap → Trace
unfolding handler_messages
command_messages fuel [] h = finished []
command_messages fuel (name ∷ args) h =
    if is_same (strcmp name exit_name)
    then finished (call (codes "Exiting shell.\n") [] ∷ [])
    else elim (find_command name commands) [
      | none ↦ finished (call (codes "Unknown command: %s\n") (text (some name) ∷ []) ∷ [])
      | some c ↦ handler_messages fuel c (name ∷ args) h
    ]

-- What the shell prints for a byte that is typed, with the line read so far.
unfoldable pub echo_byte : ℕ → List ℕ → List Call
echo_byte c line =
    if (c == 13) || (c == 10)
    then call (codes "\n") [] ∷ []
    else if (c == 8) || (c == 127)
    then (if ltb 0 (length line) then call (codes "\u{8} \u{8}") [] ∷ [] else [])
    else if leb 32 c && leb c 126
    then call (codes "%c") (word c ∷ []) ∷ []
    else []

-- What it prints while `read_line` reads a line.
unfoldable pub echo : List ℕ → List ℕ → List Call
unfolding echo_byte
echo [] line = []
echo (c ∷ input) line = elim (ltb (length line) (max_cmd_len - 1)) [
  | false ↦ []
  | true ↦ echo_byte c line ++ elim (read_byte c line) [ none ↦ [] | some line' ↦ echo input line' ]
]

abbrev pub before : List Call → Trace → Trace
before calls (finished more) = finished (calls ++ more)
before calls (cut more) = cut (calls ++ more)

-- What follows when a command has been run.
unfoldable pub after_command : (Kheap → Trace) → Option (Outcome × Kheap) → Trace
after_command next none = cut []
after_command next (some (exited, h)) = finished []
after_command next (some (o, h)) = next h

-- What the `svc` at the start of a round prints, for the registers that the vector code saves. The processor
-- reports class 0x15 and the number 0 of the `svc`.
unfoldable pub svc_messages : SavedRegisters → List Call
svc_messages context = calls_of (handle_sync_exception 0x5600_0000 0 context)

-- What the compiled code makes of a round that is not in the source: the registers that the vector code saves
-- at the `svc`, and the call of `kprintf` behind it. The source has `kprintf("")` there, but the handler of the
-- `svc` skips an instruction, which may be one that loads the address of that format.
pub record Round : Type 0 where
  pub saved : SavedRegisters
  pub behind_svc : Call

-- The loop, round after round, where `r` is what is compiled for a round with so many left. It is cut if the
-- rounds or the fuel do not suffice.
unfoldable pub loop_messages : (ℕ → Round) → ℕ → ℕ → Option (List ℕ) → List ℕ → Kheap → Trace
unfolding command_messages echo after_command svc_messages
loop_messages r zero fuel last input h = cut []
loop_messages r (suc rounds) fuel last input h =
    before
      (svc_messages ((r rounds).saved)
        ++ ((r rounds).behind_svc ∷ call (codes "\n> ") [] ∷ echo input []))
      (elim (read_line input []) [
        | none ↦ cut []
        | some (line, rest) ↦ elim line [
          | [] ↦ loop_messages r rounds fuel last rest h
          | c ∷ cs ↦ elim (command_messages fuel (parse_args (c ∷ cs) last) h) [
            | cut calls ↦ cut calls
            | finished calls ↦ before calls (
                after_command (λ g. loop_messages r rounds fuel last rest g)
                  (run_command fuel (parse_args (c ∷ cs) last) h))
          ]
        ]
      ])

-- `shell_loop` with its greeting.
unfoldable pub shell_messages : (ℕ → Round) → ℕ → ℕ → List ℕ → Kheap → Trace
unfolding loop_messages
shell_messages r rounds fuel input h =
    before
      (call (codes "\nSolaceOS Shell\n") []
        ∷ call (codes "Type 'help' for available commands.\n") []
        ∷ [])
      (loop_messages r rounds fuel none input h)
