-- ===== src/Base/Bits.antt =====
-- Facts about the bits of a byte, by tables.
use Prim.Native.Nat.{ℕ, zero, suc, ◌-◌, ◌^◌, ◌<◌, bit_and, bit_or}
use mathlib.Core.Path.{◌≡◌, refl}
use mathlib.Core.Bool.{Bool, true, false, not, ◌&&◌, ◌||◌}
use native.Mathlib.Omega.{arith}
use mathlib.Core.Logic.{inl, inr}
use solace_os.Base.Tests.{ltb, ◌==◌, if◌then◌else◌, Bool-cases, ==-eq}

-- `p` answers true at `n - 1`, `n - 2`, …, 0.
table : (ℕ → Bool) → ℕ → Bool
table p zero = true
table p (suc k) = if p k then table p k else false

table-lookup : (p : ℕ → Bool) (n : ℕ) → table p n ≡ true → (i : ℕ) → i < n → p i ≡ true
unfolding table
table-lookup p zero full i below = elim below [ ]
table-lookup p (suc n) full i below = elim (Bool-cases (i == n)) [
  | inl last ↦ rw (==-eq i n last) (ground arith)
  | inr other ↦ table-lookup p n (ground arith) i (ground arith)
]

all_pairs : ℕ → ℕ → (ℕ → ℕ → Bool) → Bool
unfolding table
all_pairs n k p = table (λ x. table (p x) k) n

all_pairs_sound :
    (n k : ℕ) (p : ℕ → ℕ → Bool) → all_pairs n k p ≡ true → (x y : ℕ) → x < n → y < k → p x y ≡ true
unfolding all_pairs
all_pairs_sound n k p h x y hx hy =
    table-lookup (p x) k (table-lookup (λ x. table (p x) k) n h x hx) y hy

iff : Bool → Bool → Bool
iff true b = b
iff false b = not b

iff-eq : (a b : Bool) → iff a b ≡ true → a ≡ b
unfolding iff
iff-eq true b h = cc
iff-eq false b h = ground arith

-- `(x & (1 << k)) != 0`
abbrev pub bit_of : ℕ → ℕ → Bool
bit_of x k = not (bit_and x (2 ^ k) == 0)

abbrev or_byte : ℕ → ℕ → Bool
or_byte x k = ltb (bit_or x (2 ^ k)) 256

abbrev and_byte : ℕ → ℕ → Bool
and_byte x k = ltb (bit_and x (2 ^ 32 - 1 - 2 ^ k)) 256

-- A byte and two bits, the pair of bits packed as 8 * j + k.
abbrev or_row : ℕ → ℕ → Bool
or_row x j = table (λ k. iff (bit_of (bit_or x (2 ^ k)) j) ((k == j) || bit_of x j)) 8

abbrev and_row : ℕ → ℕ → Bool
and_row x j =
    table (λ k. iff (bit_of (bit_and x (2 ^ 32 - 1 - 2 ^ k)) j) (not (k == j) && bit_of x j)) 8

or_byte_table : all_pairs 256 8 or_byte ≡ true
unfolding all_pairs
or_byte_table = refl

and_byte_table : all_pairs 256 8 and_byte ≡ true
unfolding all_pairs
and_byte_table = refl

or_table : all_pairs 256 8 or_row ≡ true
unfolding all_pairs table iff
or_table = refl

and_table : all_pairs 256 8 and_row ≡ true
unfolding all_pairs table iff
and_table = refl

module _ (x k : ℕ) (hx : x < 256) (hk : k < 8) where
  pub or_bit-lt : bit_or x (2 ^ k) < 256
  or_bit-lt = let h = all_pairs_sound 256 8 or_byte or_byte_table x k hx hk in ground (arith, h)

  pub and_bit-lt : bit_and x (2 ^ 32 - 1 - 2 ^ k) < 256
  and_bit-lt = let h = all_pairs_sound 256 8 and_byte and_byte_table x k hx hk in ground (arith, h)

module _ (x j k : ℕ) (hx : x < 256) (hj : j < 8) (hk : k < 8) where
  -- Setting bit `k` sets that bit and no other.
  pub bit_of-or : bit_of (bit_or x (2 ^ k)) j ≡ ((k == j) || bit_of x j)
  bit_of-or = iff-eq _ _ (table-lookup _ 8 (all_pairs_sound 256 8 or_row or_table x j hx hj) k hk)

  -- Masking bit `k` out clears that bit and no other.
  pub bit_of-and : bit_of (bit_and x (2 ^ 32 - 1 - 2 ^ k)) j ≡ (not (k == j) && bit_of x j)
  bit_of-and =
      iff-eq _ _ (table-lookup _ 8 (all_pairs_sound 256 8 and_row and_table x j hx hj) k hk)

full_table : table (bit_of 255) 8 ≡ true
unfolding table
full_table = refl

pub bit_of-full : (k : ℕ) → k < 8 → bit_of 255 k ≡ true
bit_of-full k h = table-lookup (bit_of 255) 8 full_table k h
