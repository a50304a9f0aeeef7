-- ===== src/Number/Tests.antt =====
-- Numbers as the shell's commands read them.
use Prim.Native.Nat.{min}
use solace_os.Base.{ℕ, ◌≡◌, refl, List, [], ◌∷◌, uint64_max}
use solace_os.Number.{digits_loop, skip_digits, simple_strtoull}
use solace_os.Number.Value.{number_part, value, simple_strtoull-value}

-- ` 0x1Fg`
abbrev hex : List ℕ
hex = 32 ∷ b'0' ∷ b'x' ∷ b'1' ∷ b'F' ∷ b'g' ∷ []

-- `18446744073709551616`, that is 2 ^ 64
abbrev too_long : List ℕ
too_long =
    b'1' ∷ b'8' ∷ b'4' ∷ b'4' ∷ b'6' ∷ b'7' ∷ b'4' ∷ b'4' ∷ b'0' ∷ b'7' ∷ b'3' ∷ b'7' ∷ b'0' ∷ b'9'
    ∷ b'5' ∷ b'5' ∷ b'1' ∷ b'6' ∷ b'1' ∷ b'6' ∷ []

simple_strtoull-value_example : simple_strtoull hex 0 ≡ (
  min (value 16 0 (b'1' ∷ b'F' ∷ b'g' ∷ [])) uint64_max,
  skip_digits 16 (b'1' ∷ b'F' ∷ b'g' ∷ []),
)
unfolding number_part solace_os.Number.skip_space solace_os.Number.skip_sign
    solace_os.Number.has_hex_prefix solace_os.Text.first_byte solace_os.Text.advance
simple_strtoull-value_example = simple_strtoull-value hex 0

simple_strtoull_run :
    (simple_strtoull hex 0 ≡ (31, b'g' ∷ []))
    × (simple_strtoull too_long 0 ≡ (uint64_max, []))
    × (simple_strtoull (b'-' ∷ b'7' ∷ []) 0 ≡ (7, []))
    × (simple_strtoull (b'7' ∷ []) 17 ≡ (0, b'7' ∷ []))
unfolding simple_strtoull solace_os.Number.has_hex_prefix solace_os.Number.skip_sign
    solace_os.Number.skip_space solace_os.Text.first_byte digits_loop solace_os.Text.advance
    solace_os.Number.digit_in skip_digits
simple_strtoull_run = (refl, refl, refl, refl)
