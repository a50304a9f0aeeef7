-- ===== src/Shell/Commands.antt =====
-- The commands of shell/shell.c. Each takes the arguments (`argv`, of length `argc`, the command's name
-- first) and the heap, whose frame allocator holds the memory, and returns what it reports and the heap
-- that it leaves.
pub mod Laws
pub mod Memdump
use Prim.Native.Nat.{min}
use solace_os.Base.{
  ℕ, zero, suc, ◌+◌, ◌-◌, ◌*◌, ◌/◌, ◌%◌, ◌^◌, Bool, true, false, not, ◌&&◌, Option, none, some,
  List, [], ◌∷◌, ◌++◌, ◌==◌, if◌then◌else◌, ltb, add64, u64_mod, update,
}
use solace_os.Frames.{pmm_get_highest_usable_address, pmm_get_total_memory, pmm_get_free_memory}
use solace_os.Frames
use solace_os.Heap.{Kheap, kfree}
use solace_os.Heap.Bytes.{kmalloc_bytes}
use solace_os.Number.{simple_strtoull}
use solace_os.Text.{strlen, first_byte}
use solace_os.Shell.Address.{is_address_valid}

-- What a command reports.
pub data Reply : Type 0 where
  usage bad_address bad_value bad_length bad_size out_of_ram alloc_failed : Reply
  bytes : List ℕ → Reply
  peeked : ℕ → Reply
  poked : Reply
  allocated : ℕ → Reply
  freeing : ℕ → Reply
  memory_info : ℕ → ℕ → ℕ → Reply

-- A little-endian load and store of `n` bytes.
unfoldable pub load : ℕ → ℕ → (ℕ → ℕ) → ℕ
load zero a m = 0
load (suc n) a m = m a + 256 * load n (a + 1) m

unfoldable pub store : ℕ → ℕ → ℕ → (ℕ → ℕ) → ℕ → ℕ
store zero a v m = m
store (suc n) a v m = store n (a + 1) (v / 256) (update a (v % 256) m)

-- What `peek` and `memdump` see, and `poke` changes: the memory with the bitmap in it.
abbrev pub memory_of : Kheap → ℕ → ℕ
memory_of h = Frames.memory_of h.pmm

abbrev pub highest_of : Kheap → ℕ
highest_of h = h.pmm.highest_usable_address

abbrev pub with_memory : (ℕ → ℕ) → Kheap → Kheap
with_memory m h = record h { pmm = Frames.with_memory m h.pmm }

-- A number that takes up the whole argument.
abbrev pub number : List ℕ → Option ℕ
number arg = let (n, rest) = simple_strtoull arg 0 in elim rest [ [] ↦ some n | c ∷ s ↦ none ]

-- The size letter: `b`, `h`, `w` or `d`, one byte long.
unfoldable pub size_bytes : List ℕ → Option ℕ
size_bytes arg =
    if not (strlen arg == 1)
    then none
    else if first_byte arg == b'b'
    then some 1
    else if first_byte arg == b'h'
    then some 2
    else if first_byte arg == b'w'
    then some 4
    else if first_byte arg == b'd'
    then some 8
    else none

-- The size argument of `peek` and `poke`, if it is there: 8 is the default.
unfoldable pub size_of_args : List (List ℕ) → Option ℕ
size_of_args [] = some 8
size_of_args (arg ∷ args) = size_bytes arg

unfoldable pub peek_at : ℕ → List (List ℕ) → Kheap → Reply
peek_at addr args h = elim (size_of_args args) [
  | none ↦ bad_size
  | some n ↦
      if not (is_address_valid (highest_of h) addr n)
      then out_of_ram
      else peeked (load n addr (memory_of h))
]

unfoldable pub cmd_peek : List (List ℕ) → Kheap → Reply × Kheap
unfolding peek_at
cmd_peek (name ∷ arg ∷ args) h = elim (number arg) [
  | none ↦ (bad_address, h)
  | some addr ↦ (peek_at addr args h, h)
]
cmd_peek _ h = (usage, h)

unfoldable pub poke_at : ℕ → ℕ → List (List ℕ) → Kheap → Reply × Kheap
poke_at addr value args h = elim (size_of_args args) [
  | none ↦ (bad_size, h)
  | some n ↦
      if not (is_address_valid (highest_of h) addr n)
      then (out_of_ram, h)
      else (poked, with_memory (store n addr value (memory_of h)) h)
]

unfoldable pub cmd_poke : List (List ℕ) → Kheap → Reply × Kheap
unfolding poke_at
cmd_poke (name ∷ arg ∷ arg' ∷ args) h = elim (number arg) [
  | none ↦ (bad_address, h)
  | some addr ↦ elim (number arg') [
    | none ↦ (bad_value, h)
    | some value ↦ poke_at addr value args h
  ]
]
cmd_poke _ h = (usage, h)

-- The `n` bytes from `a` on, in order.
unfoldable pub dump : ℕ → ℕ → (ℕ → ℕ) → List ℕ
dump zero a m = []
dump (suc n) a m = m a ∷ dump n (a + 1) m

unfoldable pub length_of_args : List (List ℕ) → Option ℕ
length_of_args [] = some 256
length_of_args (arg ∷ args) = number arg

-- The bytes that a row reads, with `n` columns left.
unfoldable pub row_bytes : ℕ → ℕ → ℕ → ℕ → ℕ → (ℕ → ℕ) → List ℕ
row_bytes zero j i length addr ptr = []
row_bytes (suc n) j i length addr ptr =
    let rest = row_bytes n (j + 1) i length addr ptr in
    if ltb (add64 i j) length then ptr ((addr + i + j) % u64_mod) ∷ rest else rest

-- `for (size_t i = 0; i < length; i += 16)`: the bytes of all rows; `none` if the fuel does not suffice.
unfoldable pub dump_rows : ℕ → ℕ → ℕ → ℕ → (ℕ → ℕ) → Option (List ℕ)
unfolding row_bytes
dump_rows zero i length addr ptr = none
dump_rows (suc fuel) i length addr ptr =
    let rest = dump_rows fuel (add64 i 16) length addr ptr in
    if ltb i length
    then elim rest [ none ↦ none | some bs ↦ some (row_bytes 16 0 i length addr ptr ++ bs) ]
    else some []

unfoldable pub memdump_at : ℕ → ℕ → List (List ℕ) → Kheap → Option Reply
unfolding dump_rows
memdump_at fuel addr args h = elim (length_of_args args) [
  | none ↦ some bad_length
  | some n ↦
      if n == 0
      then some (bytes [])
      else if not (is_address_valid (highest_of h) addr n)
      then some out_of_ram
      else elim (dump_rows fuel 0 n addr (memory_of h)) [ none ↦ none | some bs ↦ some (bytes bs) ]
]

-- `fuel` bounds the rows; `none` if the loop over them does not end within it.
unfoldable pub cmd_memdump : ℕ → List (List ℕ) → Kheap → Option (Reply × Kheap)
unfolding memdump_at
cmd_memdump fuel (name ∷ arg ∷ args) h = elim (number arg) [
  | none ↦ some (bad_address, h)
  | some addr ↦ elim (memdump_at fuel addr args h) [ none ↦ none | some r ↦ some (r, h) ]
]
cmd_memdump fuel _ h = some (usage, h)

-- `fuel` bounds the searches of `kmalloc`; `none` if one of them does not end within it.
unfoldable pub cmd_alloc : ℕ → List (List ℕ) → Kheap → Option (Reply × Kheap)
cmd_alloc fuel (name ∷ arg ∷ args) h = elim (number arg) [
  | none ↦ some (bad_size, h)
  | some size ↦ if size == 0 then some (bad_size, h) else elim (kmalloc_bytes fuel size h) [
    | none ↦ none
    | some (ptr, h') ↦ some (if ptr == 0 then alloc_failed else allocated ptr, h')
  ]
]
cmd_alloc fuel _ h = some (usage, h)

-- The header before the pointer is one of the heap's for a pointer that `kmalloc` returned. For another
-- address it is what the initial state holds there, seen apart from the bytes of memory.
unfoldable pub cmd_free : List (List ℕ) → Kheap → Reply × Kheap
cmd_free (name ∷ arg ∷ args) h = elim (number arg) [
  | none ↦ (bad_address, h)
  | some addr ↦ (freeing addr, kfree addr h)
]
cmd_free _ h = (usage, h)

unfoldable pub cmd_pmm_info : Kheap → Reply × Kheap
cmd_pmm_info h = (
  memory_info (pmm_get_total_memory h.pmm / 1024) (pmm_get_free_memory h.pmm / 1024)
      (pmm_get_highest_usable_address h.pmm),
  h,
)
