-- ===== src/Memory/Fill.antt =====
-- What `memset` leaves at each address.
use solace_os.Base.{
  ℕ, zero, suc, ◌+◌, ◌%◌, ◌≤◌, ◌<◌, ◌≡◌, refl, inl, inr, Bool, true, false, ◌&&◌, arith, ltb, leb,
  ◌==◌, if◌then◌else◌, Bool-cases, ==-eq,
}
use solace_os.Memory.{memset_loop, memset, in_range}

memset_loop_lem :
    (n p uc : ℕ) (m : ℕ → ℕ) (a : ℕ) → memset_loop n p uc m a ≡ (if in_range p n a then uc else m a)
unfolding memset_loop
memset_loop_lem zero p uc m a = ground arith
memset_loop_lem (suc n) p uc m a =
    ground (arith, memset_loop_lem n (p + 1) uc (solace_os.Base.update p uc m) a)

-- `memset` writes the value at every address of the range and nowhere else.
pub memset_lem :
    (s c n : ℕ) (m : ℕ → ℕ) (a : ℕ) → memset s c n m a ≡ (if in_range s n a then c % 256 else m a)
unfolding memset
memset_lem s c n m a = memset_loop_lem n s (c % 256) m a
