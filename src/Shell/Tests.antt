-- ===== src/Shell/Tests.antt =====
-- The shell's checks and commands at concrete addresses and lines.
mod Argv
mod Printed
use solace_os.Base.{codes, ℕ, ◌+◌, ◌≤◌, ◌<◌, ◌≡◌, ◌↔◌, refl, true, none, some, List, [], ◌∷◌, arith}
use solace_os.Frames.{pmm_ram_base}
use solace_os.Heap.{Kheap, zero_block}
use solace_os.Text.Tokens.{words}
use solace_os.Shell.Address.{is_address_valid, InRam, is_address_valid_iff, is_address_valid_wraps}
use solace_os.Shell.Line.{
  max_args, space, read_line, parse_args, take, GoodLine, parse_args-words, read_line-IsLine,
}
use solace_os.Shell.Commands.{
  Reply, peeked, poked, store, memory_of, highest_of, with_memory, size_of_args, peek_at, poke_at,
}
use solace_os.Text.{first_byte}
use solace_os.Shell.Dispatch.{name_of, find_command, helped, exited, run_handler, run_command}
use solace_os.Shell.Loop.{left, out_of_rounds, shell_loop, shell_loop-ends}
use solace_os.Shell.Commands.Laws.{poke_at-writes, peek_at-poke_at}

is_address_valid_iff_example :
    (is_address_valid 0x8000_0000 0x7fff_fff8 8 ≡ true) ↔ InRam 0x8000_0000 0x7fff_fff8 8
is_address_valid_iff_example = is_address_valid_iff 0x8000_0000 0x7fff_fff8 8 (omega arith)

is_address_valid_wraps_example :
    (is_address_valid 0x8000_0000 0x4000_0000 0xffff_ffff_ffff_ffff ≡ true)
    × (0x8000_0000 < 0x4000_0000 + 0xffff_ffff_ffff_ffff)
is_address_valid_wraps_example =
    is_address_valid_wraps 0x8000_0000 0x4000_0000 0xffff_ffff_ffff_ffff (omega arith) (omega arith)
      (omega arith) (omega arith) (omega arith)

-- ` ls  x`
abbrev typed : List ℕ
typed = 32 ∷ b'l' ∷ b's' ∷ 32 ∷ 32 ∷ b'x' ∷ []

parse_args-words_example :
    parse_args typed (some (b'o' ∷ [])) ≡ take max_args (words space [] typed)
parse_args-words_example = parse_args-words typed (some (b'o' ∷ []))

parse_args_run : parse_args typed none ≡ (b'l' ∷ b's' ∷ []) ∷ (b'x' ∷ []) ∷ []
unfolding parse_args solace_os.Shell.Line.read_args solace_os.Text.strtok solace_os.Text.strspn
    solace_os.Text.strpbrk solace_os.Text.strlen
parse_args_run = refl

read_line-IsLine_example : GoodLine (read_line (b'x' ∷ 8 ∷ b'l' ∷ 10 ∷ b'y' ∷ []) [])
read_line-IsLine_example =
    read_line-IsLine (b'x' ∷ 8 ∷ b'l' ∷ 10 ∷ b'y' ∷ []) []
      (record { short = omega arith; printable = tt })

read_line_run : read_line (b'x' ∷ 8 ∷ b'l' ∷ 10 ∷ b'y' ∷ []) [] ≡ some (b'l' ∷ [], b'y' ∷ [])
unfolding read_line solace_os.Shell.Line.read_byte solace_os.Shell.Line.drop_last
read_line_run = refl

-- A heap without blocks, over a gigabyte of memory that holds 7 everywhere.
abbrev bare : Kheap
bare = record {
  blocks = λ a. zero_block;
  free_list_head = 0;
  heap_start = 0;
  heap_end = 0;
  pmm = record {
    frame_bitmap = λ k. 0;
    total_memory = 0;
    free_memory = 0;
    highest_usable_address = 0x8000_0000;
    mem = λ a. 7;
    bitmap_start = 0x400a_0000;
    bitmap_length = 0x8000;
  };
}

-- `h`: two bytes
abbrev half : List (List ℕ)
half = (b'h' ∷ []) ∷ []

abbrev bare_poked : Kheap
bare_poked = with_memory (store 2 0x5000_0000 0x12345 (memory_of bare)) bare

poke_at_run : poke_at 0x5000_0000 0x12345 half bare ≡ (poked, bare_poked)
unfolding poke_at size_of_args solace_os.Shell.Commands.size_bytes is_address_valid
    solace_os.Text.strlen solace_os.Text.first_byte
poke_at_run = refl

half-size : size_of_args half ≡ some 2
unfolding size_of_args solace_os.Shell.Commands.size_bytes solace_os.Text.strlen
    solace_os.Text.first_byte
half-size = refl

poke_at-writes_example :
    (pmm_ram_base ≤ 0x5000_0000)
    × (0x5000_0000 + 2 ≤ highest_of bare)
    × (memory_of bare_poked 0x5000_0002 ≡ memory_of bare 0x5000_0002)
poke_at-writes_example =
    poke_at-writes 0x5000_0000 0x12345 half bare bare_poked (omega arith) poke_at_run 2 half-size
      0x5000_0002 refl

peek_at-poke_at_example : peek_at 0x5000_0000 half bare_poked ≡ peeked 0x2345
peek_at-poke_at_example =
    peek_at-poke_at 0x5000_0000 0x12345 half bare bare_poked (omega arith) poke_at_run 2 half-size

-- `memdump 0x40000000`
abbrev dump_args : List (List ℕ)
dump_args = codes "0x40000000" ∷ []

-- `help`, an empty line, then `exit` and a byte that nobody reads.
abbrev session : List ℕ
session = codes "help\n\nexit\n!"

shell_loop_run : shell_loop 5 0 none session bare [] ≡ left (helped ∷ exited ∷ []) (b'!' ∷ []) bare
unfolding shell_loop solace_os.Shell.Loop.run_line read_line parse_args run_command find_command
    name_of run_handler first_byte solace_os.Text.advance solace_os.Text.strtok
    solace_os.Text.strspn solace_os.Text.strpbrk solace_os.Text.strcmp solace_os.Text.difference
shell_loop_run = refl
