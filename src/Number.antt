-- ===== src/Number.antt =====
-- lib/stdlib_stubs.c: reading unsigned numbers. Strings are as in `Text`.
pub mod Plain
mod Tests
pub mod Value
use solace_os.Base.{
  ℕ, zero, suc, ◌+◌, ◌-◌, ◌*◌, ◌/◌, ◌%◌, Bool, true, false, not, ◌&&◌, ◌||◌, Option, none, some,
  List, [], ◌∷◌, ◌==◌, ltb, leb, if◌then◌else◌, uint64_max, u64_mod,
}
use solace_os.Text.{first_byte, advance}

pub is_space : ℕ → Bool
is_space c = (c == 32) || (c == 9) || (c == 10) || (c == 13) || (c == 12) || (c == 11)

pub skip_space : List ℕ → List ℕ
unfolding is_space
skip_space [] = []
skip_space (c ∷ s) = let rest = skip_space s in if is_space c then rest else c ∷ s

-- The sign is skipped and has no effect.
pub skip_sign : List ℕ → List ℕ
skip_sign [] = []
skip_sign (c ∷ s) = if (c == b'+') || (c == b'-') then s else c ∷ s

-- The value of a digit or letter in any base up to 36.
pub digit : ℕ → Option ℕ
digit c =
    if leb b'0' c && leb c b'9'
    then some (c - b'0')
    else if leb b'a' c && leb c b'z'
    then some (c - b'a' + 10)
    else if leb b'A' c && leb c b'Z'
    then some (c - b'A' + 10)
    else none

-- The same, but only below the base.
pub digit_in : ℕ → ℕ → Option ℕ
unfolding digit
digit_in base c = elim (digit c) [ none ↦ none | some d ↦ if leb base d then none else some d ]

-- The digits that are left after an overflow are skipped.
unfoldable pub skip_digits : ℕ → List ℕ → List ℕ
skip_digits base [] = []
skip_digits base (c ∷ s) = elim (digit_in base c) [ none ↦ c ∷ s | some d ↦ skip_digits base s ]

-- The main loop, from a value of `result` on: the result and `*endptr`.
pub digits_loop : ℕ → ℕ → List ℕ → ℕ × List ℕ
digits_loop base result [] = (result, [])
digits_loop base result (c ∷ s) =
    let cutoff = uint64_max / base in
    let cutlim = uint64_max % base in
    elim (digit_in base c) [
      | none ↦ (result, c ∷ s)
      | some d ↦ elim (ltb cutoff result || ((result == cutoff) && ltb cutlim d)) [
        | true ↦ (uint64_max, skip_digits base s)
        | false ↦ digits_loop base ((result * base + d) % u64_mod) s
      ]
    ]

-- `nptr` is at `0x` or `0X`, and the base allows it.
pub has_hex_prefix : ℕ → List ℕ → Bool
has_hex_prefix base [] = false
has_hex_prefix base (c ∷ s) =
    ((base == 0) || (base == 16))
    && (c == b'0')
    && ((first_byte s == b'x') || (first_byte s == b'X'))

-- `simple_strtoull(nptr, &end, base)`: the value and `end`.
pub simple_strtoull : List ℕ → ℕ → ℕ × List ℕ
simple_strtoull nptr base =
    let s = skip_sign (skip_space nptr) in
    if has_hex_prefix base s
    then digits_loop 16 0 (advance 2 s)
    else let b = if base == 0 then 10 else base in
      if ltb b 2 || ltb 16 b then (0, nptr) else digits_loop b 0 s

-- `simple_strtoul`: `unsigned long` has 64 bits too, so the cap changes nothing.
pub simple_strtoul : List ℕ → ℕ → ℕ × List ℕ
unfolding simple_strtoull
simple_strtoul nptr base =
    let (val, rest) = simple_strtoull nptr base in
    (if ltb uint64_max val then uint64_max else val, rest)
