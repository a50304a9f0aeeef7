-- ===== src/Shell/Address.antt =====
-- `is_address_valid` of shell/shell.c.
use solace_os.Base.{
  ℕ, ◌+◌, ◌-◌, ◌%◌, ◌≤◌, ◌<◌, ◌≡◌, ◌⊎◌, ◌↔◌, Bool, true, false, ◌&&◌, ◌||◌, arith, ltb, leb,
  if◌then◌else◌, u64_mod,
}
use solace_os.Frames.{pmm_ram_base, pmm_max_address}

-- `is_address_valid(addr, len)` when `pmm_get_highest_usable_address()` is `highest_ram`. The sums are
-- of 64 bits; both inner returns are `false`.
unfoldable pub is_address_valid : ℕ → ℕ → ℕ → Bool
is_address_valid highest_ram addr len =
    if ltb addr pmm_ram_base || leb highest_ram addr
    then false
    else if ltb 0 len && leb highest_ram ((addr + len + u64_mod - 1) % u64_mod)
    then false
    else true

-- The bytes from `addr` on lie in RAM below `highest`; an empty range needs a valid address too.
abbrev pub InRam : ℕ → ℕ → ℕ → Type 0
InRam highest addr len =
    (pmm_ram_base ≤ addr) × (addr < highest) × ((len ≡ 0) ⊎ (addr + len ≤ highest))

module _ (highest addr len : ℕ) where
  -- Where the range does not wrap round the address space, the check accepts it exactly if it lies in
  -- RAM.
  pub is_address_valid_iff :
      addr + len ≤ u64_mod → (is_address_valid highest addr len ≡ true) ↔ InRam highest addr len
  unfolding is_address_valid
  is_address_valid_iff fits = (λ h. ground (arith, h), λ h. ground (arith, h))

  -- A range that starts in RAM, whose top is at most the end of the managed memory, and that wraps to
  -- an end below that top is accepted, though it reaches past the end of RAM.
  pub is_address_valid_wraps :
      pmm_ram_base ≤ addr
      → addr < highest
      → highest ≤ pmm_max_address
      → u64_mod < addr + len
      → addr + len ≤ u64_mod + highest
      → (is_address_valid highest addr len ≡ true) × (highest < addr + len)
  unfolding is_address_valid
  is_address_valid_wraps a b c d e = ground arith

  -- A valid address lies below the top of RAM.
  pub is_address_valid-below : is_address_valid highest addr len ≡ true → addr < highest
  unfolding is_address_valid
  is_address_valid-below h = ground (arith, h)
