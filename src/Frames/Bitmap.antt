-- ===== src/Frames/Bitmap.antt =====
-- The bits of the frame bitmap under `set_bit` and `clear_bit`.
use native.Mathlib.Nat.{mod-eq_of_lt}
use solace_os.Base.{
  ℕ, ◌/◌, ◌%◌, ◌<◌, ◌≡◌, ◌≢◌, inl, inr, not, ◌&&◌, ◌||◌, arith, ◌==◌, Bool-cases, ==-eq, ==-ne,
  ==_self, ==_of_ne,
}
use solace_os.Base.Bits.{or_bit-lt, and_bit-lt, bit_of-or, bit_of-and}
use solace_os.Frames.{set_bit, clear_bit, test_bit}

-- Every entry of the bitmap is a byte.
abbrev pub IsBytes : (ℕ → ℕ) → Type 0
IsBytes b = (k : ℕ) → b k < 256

module _ (i : ℕ) (b : ℕ → ℕ) (bytes : IsBytes b) where
  pub set_bit-IsBytes : IsBytes (set_bit i b)
  unfolding set_bit
  set_bit-IsBytes k = ground (arith, bytes k)

  pub clear_bit-IsBytes : IsBytes (clear_bit i b)
  unfolding clear_bit
  clear_bit-IsBytes k = ground (arith, bytes k)

-- Two frames whose bits lie in one byte are one frame if the bits are one.
same_bit : (i j : ℕ) → i / 8 ≡ j / 8 → ((i % 8) == (j % 8)) ≡ (i == j)
same_bit i j h = ground arith

module _ (i j : ℕ) (b : ℕ → ℕ) (bytes : IsBytes b) where
  set_same : i / 8 ≡ j / 8 → test_bit j (set_bit i b) ≡ ((i == j) || test_bit j b)
  unfolding set_bit test_bit
  set_same h = rw (
    h,
    ==_self (j / 8),
    mod-eq_of_lt (or_bit-lt (b (j / 8)) (i % 8) (bytes (j / 8)) (omega arith)),
    bit_of-or (b (j / 8)) (j % 8) (i % 8) (bytes (j / 8)) (omega arith) (omega arith),
    same_bit i j h,
  )

  clear_same : i / 8 ≡ j / 8 → test_bit j (clear_bit i b) ≡ (not (i == j) && test_bit j b)
  unfolding clear_bit test_bit
  clear_same h = rw (
    h,
    ==_self (j / 8),
    mod-eq_of_lt (and_bit-lt (b (j / 8)) (i % 8) (bytes (j / 8)) (omega arith)),
    bit_of-and (b (j / 8)) (j % 8) (i % 8) (bytes (j / 8)) (omega arith) (omega arith),
    same_bit i j h,
  )

  set_apart : i / 8 ≢ j / 8 → test_bit j (set_bit i b) ≡ ((i == j) || test_bit j b)
  unfolding set_bit test_bit
  set_apart h = rw (==_of_ne (i / 8) (j / 8) h, ==_of_ne i j (λ e. h (ground arith)))

  clear_apart : i / 8 ≢ j / 8 → test_bit j (clear_bit i b) ≡ (not (i == j) && test_bit j b)
  unfolding clear_bit test_bit
  clear_apart h = rw (==_of_ne (i / 8) (j / 8) h, ==_of_ne i j (λ e. h (ground arith)))

  -- `set_bit` sets the bit of one frame and leaves every other frame's.
  pub test_bit-set_bit : test_bit j (set_bit i b) ≡ ((i == j) || test_bit j b)
  test_bit-set_bit = elim (Bool-cases ((i / 8) == (j / 8))) [
    | inl e ↦ set_same (==-eq _ _ e)
    | inr n ↦ set_apart (==-ne _ _ n)
  ]

  pub test_bit-clear_bit : test_bit j (clear_bit i b) ≡ (not (i == j) && test_bit j b)
  test_bit-clear_bit = elim (Bool-cases ((i / 8) == (j / 8))) [
    | inl e ↦ clear_same (==-eq _ _ e)
    | inr n ↦ clear_apart (==-ne _ _ n)
  ]
