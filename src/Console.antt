-- ===== src/Console.antt =====
-- `kprintf` of lib/stdio.c. A format is a C string, and the bytes written to `buffer` so far are a list,
-- so that its length is `buf_ptr - buffer`.
pub mod Buffer
pub mod Check
pub mod Digits
pub mod Overrun
pub mod Sent
mod Tests
pub mod Typed
use Prim.Native.Nat.{min}
use solace_os.Base.{
  ℕ, zero, suc, ◌+◌, ◌-◌, ◌*◌, ◌/◌, ◌%◌, ◌^◌, Bool, true, false, not, ◌&&◌, ◌||◌, Option, none,
  some, List, [], ◌∷◌, ◌++◌, ◌==◌, ltb, leb, if◌then◌else◌, length, codes, u64_mod,
}
use solace_os.Text.{first_byte, advance, strlen, prefix_of}
use solace_os.Uart.{uart_puts}

abbrev pub printf_buffer_size : ℕ
printf_buffer_size = 1024

abbrev pub max_int_digits : ℕ
max_int_digits = 21

-- A variable argument: the 64 bits of an integer or a pointer, or a string, where `none` is NULL.
pub data Arg : Type 0 where
  word : ℕ → Arg
  text : Option (List ℕ) → Arg

-- A call of `kprintf`.
pub record Call : Type 0 where
  pub format : List ℕ
  pub args : List Arg

abbrev pub call : List ℕ → List Arg → Call
call f a = record { format = f; args = a }

-- The length modifiers; `l` and `z` are read alike.
pub data Modifier : Type 0 where
  plain long longlong size_t : Modifier

-- What a call comes to. It is undefined where it reads an argument that is not there or of another
-- kind, or reads the format behind its NUL.
pub data Printed : Type 0 where
  done : List ℕ → Printed
  undefined out_of_fuel : Printed

pub is_flag : ℕ → Bool
is_flag c = (c == b'-') || (c == b'+') || (c == b'0') || (c == b' ')

unfoldable pub skip_flags : List ℕ → List ℕ
unfolding is_flag
skip_flags [] = []
skip_flags (c ∷ s) = let rest = skip_flags s in if is_flag c then rest else c ∷ s

unfoldable pub skip_width : List ℕ → List ℕ
skip_width [] = []
skip_width (c ∷ s) = let rest = skip_width s in if leb b'0' c && leb c b'9' then rest else c ∷ s

unfoldable pub read_modifier : List ℕ → Modifier × List ℕ
read_modifier s =
    if first_byte s == b'l'
    then (if first_byte (advance 1 s) == b'l' then (longlong, advance 2 s) else (long, advance 1 s))
    else if first_byte s == b'z'
    then (size_t, advance 1 s)
    else (plain, s)

-- An `unsigned int` is the low half of its slot.
pub read_unsigned : Modifier → ℕ → ℕ
read_unsigned plain w = w % 2 ^ 32
read_unsigned long w = w % 2 ^ 64
read_unsigned longlong w = w % 2 ^ 64
read_unsigned size_t w = w % 2 ^ 64

-- `value < 0` and `abs_value`, for a number of `m` values in two's complement.
abbrev pub signed_parts : ℕ → ℕ → Bool × ℕ
signed_parts m v = if leb m (2 * v) then (true, m - v) else (false, v)

pub read_signed : Modifier → ℕ → Bool × ℕ
read_signed plain w = signed_parts (2 ^ 32) (w % 2 ^ 32)
read_signed long w = signed_parts (2 ^ 64) (w % 2 ^ 64)
read_signed longlong w = signed_parts (2 ^ 64) (w % 2 ^ 64)
read_signed size_t w = signed_parts (2 ^ 64) (w % 2 ^ 64)

-- `'0' + value % 10`, and the letters of `hex_chars`.
unfoldable pub digit_char : Bool → ℕ → ℕ
digit_char upper d =
    if ltb d 10 then b'0' + d else if upper then b'A' + (d - 10) else b'a' + (d - 10)

-- The loops that write a number from its last digit on, in front of `digits`, with `room` bytes of
-- `num_buf` left, and at least `least` digits to come; `none` if a digit does not fit.
unfoldable pub write_digits : ℕ → ℕ → Bool → ℕ → ℕ → List ℕ → Option (List ℕ)
unfolding digit_char
write_digits zero least upper base value digits = none
write_digits (suc room) least upper base value digits =
    let written = digit_char upper (value % base) ∷ digits in
    let rest = write_digits room (least - 1) upper base (value / base) written in
    if ltb 0 (value / base) || ltb 1 least then rest else some written

-- The digits of a number in `num_buf`, whose last byte is the NUL.
unfoldable pub unsigned_text : ℕ → Bool → ℕ → Option (List ℕ)
unfolding write_digits
unsigned_text base upper value = write_digits (max_int_digits - 1) 0 upper base value []

-- `%d`: the sign goes in front of the digits.
pub signed_text : Bool × ℕ → Option (List ℕ)
unfolding unsigned_text
signed_text (negative, abs_value) = elim (unsigned_text 10 false abs_value) [
  | none ↦ none
  | some digits ↦
      if not negative
      then some digits
      else if ltb (strlen digits) (max_int_digits - 1)
      then some (b'-' ∷ digits)
      else none
]

-- `%p`: at least 16 digits.
pub pointer_text : ℕ → Option (List ℕ)
unfolding write_digits
pointer_text value = write_digits (max_int_digits - 1) 16 false 16 value []

-- `memcpy` of a string to the buffer, cut to the room that is left before the last byte.
pub put_text : List ℕ → List ℕ → List ℕ
put_text out str =
    let room = printf_buffer_size - length out - 1 in
    out ++ prefix_of (if ltb room (strlen str) then room else strlen str) str

-- A number that has been written, or an overrun of `num_buf`.
pub put_number : List ℕ → Option (List ℕ) → Option (List ℕ)
unfolding put_text
put_number out none = none
put_number out (some digits) = some (put_text out digits)

-- The prefix of `%p`.
pub put_prefix : List ℕ → List ℕ
put_prefix out =
    if ltb (length out + 2) (printf_buffer_size - 1) then out ++ (b'0' ∷ b'x' ∷ []) else out

-- The specifiers that take an argument.
pub data Specifier : Type 0 where
  character string signed unsigned hex hex_upper pointer : Specifier

abbrev pub specifier : ℕ → Option Specifier
specifier c =
    if c == b'c'
    then some character
    else if c == b's'
    then some string
    else if (c == b'd') || (c == b'i')
    then some signed
    else if c == b'u'
    then some unsigned
    else if c == b'x'
    then some hex
    else if c == b'X'
    then some hex_upper
    else if c == b'p'
    then some pointer
    else none

-- `"(null)"` for NULL.
abbrev pub string_of : Option (List ℕ) → List ℕ
string_of none = codes "(null)"
string_of (some s) = s

-- A case of the switch with its argument: the buffer afterwards; `none` if this is undefined.
pub put_arg : Modifier → Specifier → Arg → List ℕ → Option (List ℕ)
unfolding read_unsigned read_signed unsigned_text signed_text pointer_text put_text put_number
    put_prefix
put_arg m character (word w) out = some (out ++ (w % 256) ∷ [])
put_arg m string (text s) out = some (put_text out (string_of s))
put_arg m signed (word w) out = put_number out (signed_text (read_signed m w))
put_arg m unsigned (word w) out = put_number out (unsigned_text 10 false (read_unsigned m w))
put_arg m hex (word w) out = put_number out (unsigned_text 16 false (read_unsigned m w))
put_arg m hex_upper (word w) out = put_number out (unsigned_text 16 true (read_unsigned m w))
put_arg m pointer (word w) out = put_number (put_prefix out) (pointer_text (w % u64_mod))
put_arg m _ _ out = none

-- The switch at the specifier `c`: the buffer and the arguments that are left.
pub put_specifier : Modifier → ℕ → List Arg → List ℕ → Option (List ℕ × List Arg)
unfolding put_arg
put_specifier m c args out = elim (specifier c) [
  | none ↦ some (if c == b'%' then (out ++ b'%' ∷ [], args) else (out ++ (b'%' ∷ c ∷ []), args))
  | some k ↦ elim args [
    | [] ↦ none
    | arg ∷ rest ↦ elim (put_arg m k arg out) [ none ↦ none | some out' ↦ some (out', rest) ]
  ]
]

-- The format behind a `%`, its flags and its width: the modifier, and what is left.
abbrev pub directive : List ℕ → Modifier × List ℕ
directive s = read_modifier (skip_width (skip_flags s))

-- The main loop.
pub kprintf_loop : ℕ → List ℕ → List Arg → List ℕ → Printed
unfolding put_specifier read_modifier
kprintf_loop zero format args out = out_of_fuel
kprintf_loop (suc fuel) [] args out = done out
kprintf_loop (suc fuel) (c ∷ format) args out =
    let (m, s) = directive format in
    elim (ltb (length out) (printf_buffer_size - 1)) [
      | false ↦ done out
      | true ↦ elim (c == b'%') [
        | false ↦ kprintf_loop fuel format args (out ++ c ∷ [])
        | true ↦ elim s [
          | [] ↦ undefined
          | d ∷ format' ↦ elim (put_specifier m d args out) [
            | none ↦ undefined
            | some r ↦ kprintf_loop fuel format' r.1 r.0
          ]
        ]
      ]
    ]

-- `kprintf(format, ...)`: what is in the buffer before the NUL, whose length is returned.
pub kprintf : List ℕ → List Arg → Printed
unfolding kprintf_loop
kprintf format args = kprintf_loop (length format + 1) format args []

-- The bytes that go to the UART: the buffer up to its first NUL.
pub until_nul : List ℕ → List ℕ
until_nul [] = []
until_nul (c ∷ s) = if c == 0 then [] else c ∷ until_nul s

-- `kprintf` with its output loop: what the UART gets, for the values of its flag register, and the
-- values that are left; `none` if it is undefined or still waits.
pub print : List ℕ → List Arg → List ℕ → Option (List ℕ × List ℕ)
unfolding kprintf until_nul
print format args flags = elim (kprintf format args) [
  | done out ↦ uart_puts (until_nul out) flags
  | undefined ↦ none
  | out_of_fuel ↦ none
]
