-- ===== src/Memory/Copy.antt =====
-- What `memcpy` leaves at each address.
use solace_os.Base.{
  ℕ, zero, suc, ◌+◌, ◌-◌, ◌≤◌, ◌≡◌, ◌⊎◌, arith, ◌==◌, if◌then◌else◌, update, ap, ◌∙◌, Bool-cases,
  inl, inr, true, false, ==_of_ne, ==-eq, ◌<◌,
}
use solace_os.Memory.{memcpy_loop, memcpy, in_range}

memcpy_loop_lem :
    (n d s : ℕ) (m : ℕ → ℕ) (a : ℕ)
    → (d ≤ s) ⊎ (s + n ≤ d)
    → memcpy_loop n d s m a ≡ (if in_range d n a then m (s + (a - d)) else m a)
unfolding memcpy_loop
memcpy_loop_lem zero d s m a h = ground arith
memcpy_loop_lem (suc n) d s m a h =
    memcpy_loop_lem n (d + 1) (s + 1) (update d (m s) m) a (omega (arith, h)) ∙ step
  where
    source : d + 1 ≤ a → s + 1 + (a - (d + 1)) ≡ s + (a - d)
    source l = omega (arith, l)

    at : d + 1 ≤ a → a < d + suc n → update d (m s) m (s + 1 + (a - (d + 1))) ≡ m (s + (a - d))
    at l u =
        rw (==_of_ne d (s + 1 + (a - (d + 1))) λ e. omega (arith, e, l, u, h)) (ap m (source l))

    first : d ≡ a → m s ≡ m (s + (a - d))
    first e = ap m (omega (arith, e))

    step :
        (if in_range (d + 1) n a
          then update d (m s) m (s + 1 + (a - (d + 1)))
          else update d (m s) m a)
        ≡ (if in_range d (suc n) a then m (s + (a - d)) else m a)
    step = elim (Bool-cases (in_range (d + 1) n a)) [
      | inl e ↦
          let inside : in_range d (suc n) a ≡ true = ground (arith, e) in
          rw (e, inside) (at (ground (arith, e)) (ground (arith, e)))
      | inr e ↦ rw e (elim (Bool-cases (d == a)) [
        | inl f ↦
            let inside : in_range d (suc n) a ≡ true = ground (arith, f) in
            rw (f, inside) (first (==-eq d a f))
        | inr f ↦
            let outside : in_range d (suc n) a ≡ false = ground (arith, e, f) in rw (f, outside)
      ])
    ]

-- `memcpy` copies every byte of the range and writes nowhere else, where the destination does not begin
-- inside the source.
pub memcpy_lem :
    (dest src n : ℕ) (m : ℕ → ℕ) (a : ℕ)
    → (dest ≤ src) ⊎ (src + n ≤ dest)
    → memcpy dest src n m a ≡ (if in_range dest n a then m (src + (a - dest)) else m a)
unfolding memcpy
memcpy_lem dest src n m a h = memcpy_loop_lem n dest src m a h
