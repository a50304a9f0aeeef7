-- ===== src/Shell/Commands/Memdump.antt =====
-- `memdump` leaves the heap, and ends where its counter does not wrap.
use solace_os.Base.{
  ℕ, zero, suc, ◌+◌, ◌*◌, ◌≤◌, ◌<◌, ◌≡◌, refl, ap, ◌∙◌, inl, inr, not, Option, some, List, [], ◌∷◌,
  ◌++◌, ◌==◌, ltb, add64, u64_mod, arith, Bool-cases, Option-cases,
}
use solace_os.Heap.{Kheap}
use solace_os.Shell.Address.{is_address_valid}
use solace_os.Shell.Commands.{
  Reply, bad_length, bad_address, out_of_ram, bytes, highest_of, memory_of, number, length_of_args,
  row_bytes, dump_rows, memdump_at, cmd_memdump,
}

-- The length is one for which the counter does not wrap and the fuel suffices.
abbrev pub Fits : ℕ → ℕ → Type 0
Fits fuel n = (n + 16 ≤ u64_mod) × (n + 16 ≤ 16 * fuel)

-- The loop ends.
abbrev pub Ends {ℓ} : {A : Type ℓ} → Option A → Type ℓ
Ends {A = A} o = (x : A) × (o ≡ some x)

dump_rows-Ends :
    (length addr : ℕ) (ptr : ℕ → ℕ) (fuel i : ℕ)
    → length + 16 ≤ u64_mod
    → length + 16 ≤ i + 16 * fuel
    → i < length + 16
    → Ends (dump_rows fuel i length addr ptr)
unfolding dump_rows
dump_rows-Ends length addr ptr zero i fits l m = absurd (omega (arith, l, m))
dump_rows-Ends length addr ptr (suc fuel) i fits l m = elim (Bool-cases (ltb i length)) [
  | inr e ↦ ([], rw e refl)
  | inl e ↦
      let p : i < length = ground (arith, e) in
      let step : add64 i 16 ≡ i + 16 = omega (arith, fits, p) in
      let (bs, f) =
        dump_rows-Ends length addr ptr fuel (i + 16) fits (omega (arith, l)) (omega (arith, p)) in
      let g : dump_rows fuel (add64 i 16) length addr ptr ≡ some bs =
        ap (λ k. dump_rows fuel k length addr ptr) step ∙ f in
      (row_bytes 16 0 i length addr ptr ++ bs, rw (dump_rows, e, g) refl)
]

memdump_at-Ends :
    (fuel addr : ℕ) (args : List (List ℕ)) (h : Kheap)
    → ((n : ℕ) → length_of_args args ≡ some n → Fits fuel n)
    → Ends (memdump_at fuel addr args h)
unfolding memdump_at
memdump_at-Ends fuel addr args h fits = elim (Option-cases (length_of_args args)) [
  | inl e ↦ (bad_length, rw (memdump_at, e) refl)
  | inr (n, e) ↦ elim (Bool-cases (n == 0)) [
    | inl z ↦ (bytes [], rw (memdump_at, e, z) refl)
    | inr z ↦ elim (Bool-cases (not (is_address_valid (highest_of h) addr n))) [
      | inl v ↦ (out_of_ram, rw (memdump_at, e, z, v) refl)
      | inr v ↦
          let (small, enough) = fits n e in
          let (bs, f) =
            dump_rows-Ends n addr (memory_of h) fuel 0 small (omega (arith, enough))
              (omega arith) in
          (bytes bs, rw (memdump_at, e, z, v, f) refl)
    ]
  ]
]

-- With fuel for the rows the command ends, and leaves the heap as it is.
pub cmd_memdump-heap :
    (fuel : ℕ) (argv : List (List ℕ)) (h : Kheap)
    → ((name arg : List ℕ) (args : List (List ℕ)) (n : ℕ)
        → argv ≡ name ∷ arg ∷ args
        → length_of_args args ≡ some n
        → Fits fuel n)
    → (r : Reply) × (cmd_memdump fuel argv h ≡ some (r, h))
unfolding cmd_memdump
cmd_memdump-heap fuel [] h fits = (_, refl)
cmd_memdump-heap fuel (name ∷ []) h fits = (_, refl)
cmd_memdump-heap fuel (name ∷ arg ∷ args) h fits = elim (Option-cases (number arg)) [
  | inl e ↦ (bad_address, rw (cmd_memdump, e) refl)
  | inr (addr, e) ↦
      let (r, f) = memdump_at-Ends fuel addr args h (λ n q. fits name arg args n refl q) in
      (r, rw (cmd_memdump, e, f) refl)
]
