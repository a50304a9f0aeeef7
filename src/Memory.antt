-- ===== src/Memory.antt =====
-- lib/string.c's `memset` and `memcpy` on physical memory, a function from addresses to bytes.
pub mod Copy
pub mod Fill
use solace_os.Base.{ℕ, zero, suc, ◌+◌, ◌%◌, Bool, leb, ltb, update, ◌&&◌}

-- The loop of `memset`, over the `n` bytes that are left from `p` on.
pub memset_loop : ℕ → ℕ → ℕ → (ℕ → ℕ) → ℕ → ℕ
memset_loop zero p uc m = m
memset_loop (suc n) p uc m = memset_loop n (p + 1) uc (update p uc m)

-- `memset(s, c, n)`: `c` is cast to `unsigned char`.
unfoldable pub memset : ℕ → ℕ → ℕ → (ℕ → ℕ) → ℕ → ℕ
unfolding memset_loop
memset s c n m = memset_loop n s (c % 256) m

-- The loop of `memcpy`, with `n` bytes to go.
pub memcpy_loop : ℕ → ℕ → ℕ → (ℕ → ℕ) → ℕ → ℕ
memcpy_loop zero d s m = m
memcpy_loop (suc n) d s m = memcpy_loop n (d + 1) (s + 1) (update d (m s) m)

-- `memcpy(dest, src, n)`
pub memcpy : ℕ → ℕ → ℕ → (ℕ → ℕ) → ℕ → ℕ
unfolding memcpy_loop
memcpy dest src n m = memcpy_loop n dest src m

-- The address `a` lies among the `n` from `s` on.
abbrev pub in_range : ℕ → ℕ → ℕ → Bool
in_range s n a = leb s a && ltb a (s + n)
