-- ===== src/Console/Digits.antt =====
-- The numbers that `kprintf` prints, read back by `simple_strtoull`.
use native.Mathlib.Nat.{div-add-mod', mod-lt, pow-suc, pow-zero, div-lt_iff_lt-mul}
use Prim.Native.Nat.{min}
use solace_os.Base.{
  ℕ, zero, suc, ◌+◌, ◌-◌, ◌/◌, ◌%◌, ◌^◌, ◌≤◌, ◌<◌, ◌≡◌, refl, ap, ◌∙◌, ◌⊎◌, inl, inr, Bool, true,
  false, ◌||◌, some, List, [], ◌∷◌, ltb, if◌then◌else◌, arith, Bool-cases, uint64_max,
}
use solace_os.Text.{strlen}
use solace_os.Number.{digit_in, skip_digits, simple_strtoull}
use solace_os.Number.Value.{value, value-more, skip-more}
use solace_os.Number.Plain.{digit_in-numeral, digit_in-lower, digit_in-upper, simple_strtoull-plain}
use solace_os.Console.{digit_char, write_digits, unsigned_text, pointer_text}

-- A digit that is printed is read as itself.
digit_in-digit_char :
    (base : ℕ) (upper : Bool) (d : ℕ)
    → d < base
    → base ≤ 16
    → digit_in base (digit_char upper d) ≡ some d
unfolding digit_char
digit_in-digit_char base upper d h b = elim (Bool-cases (ltb d 10)) [
  | inl e ↦ rw e (digit_in-numeral base d b h (ground (arith, e)))
  | inr e ↦ rw e (letter (ground (arith, e)) upper)
]
  where
    letter :
        10 ≤ d
        → (u : Bool) → digit_in base (if u then b'A' + (d - 10) else b'a' + (d - 10)) ≡ some d
    letter l true = digit_in-upper base d b h l
    letter l false = digit_in-lower base d b h l

module _ (upper : Bool) (base : ℕ) (low : 2 ≤ base) (high : base ≤ 16) where
  -- A digit in front is read first.
  read_digit :
      (v : ℕ) (s : List ℕ)
      → let t = digit_char upper (v % base) ∷ s in
        (value base (v / base) t ≡ value base v s) × (skip_digits base t ≡ skip_digits base s)
  read_digit v s =
      let e = digit_in-digit_char base upper (v % base) (mod-lt v {m = base} (omega arith)) high in
      (
        value-more base (v / base) (digit_char upper (v % base)) s e
            ∙ ap (λ n. value base n s) (div-add-mod' v base),
        skip-more base 0 (digit_char upper (v % base)) s e,
      )

  -- What the digit loop has written is read as its number, and then what was there before.
  record Reads (v : ℕ) (s t : List ℕ) : Type 0 where
    reads : value base 0 t ≡ value base v s
    digits : skip_digits base t ≡ skip_digits base s

  zero_digit : (v : ℕ) (s : List ℕ) → v / base ≡ 0 → Reads v s (digit_char upper (v % base) ∷ s)
  zero_digit v s e = let (p, q) = read_digit v s in record { reads = rw e at p; digits = q }

  more_room :
      (room least q : ℕ)
      → q < base ^ room
      → least ≤ suc room
      → (ltb 0 q || ltb 1 least) ≡ true
      → 0 < room
  more_room zero least q h l e =
      let one : q < 1 = rw pow-zero at h in absurd (ground (arith, e, one))
  more_room (suc room) least q h l e = omega arith

  -- With room for all digits of the number, and for as many as are asked for, the loop succeeds.
  write_digits-Reads :
      (room least v : ℕ) (s : List ℕ)
      → v < base ^ room
      → least ≤ room
      → 0 < room
      → (t : List ℕ) × (write_digits room least upper base v s ≡ some t) × Reads v s t
  unfolding write_digits
  write_digits-Reads zero least v s h l p = absurd (omega arith)
  write_digits-Reads (suc room) least v s h l p =
      elim (Bool-cases (ltb 0 (v / base) || ltb 1 least)) [
        | inl e ↦
            let fits : v / base < base ^ room =
              (div-lt_iff_lt-mul {k = base} {x = v} {y = base ^ room} (omega arith)).1
                (rw pow-suc at h) in
            let (t, w, r) =
              write_digits-Reads room (least - 1) (v / base) (digit_char upper (v % base) ∷ s) fits
                (omega arith) (more_room room least (v / base) fits l e) in
            let (a, b) = read_digit v s in
            (t, rw e w, record { reads = r.reads ∙ a; digits = r.digits ∙ b })
        | inr e ↦ (digit_char upper (v % base) ∷ s, rw e, zero_digit v s (ground (arith, e)))
      ]

-- The two bases in which `kprintf` prints.
abbrev pub IsPrintBase : ℕ → Type 0
IsPrintBase base = (base ≡ 10) ⊎ (base ≡ 16)

fits_room : (base v : ℕ) → IsPrintBase base → v ≤ uint64_max → v < base ^ 20
fits_room base v (inl e) h = rw e (omega arith)
fits_room base v (inr e) h = rw e (omega arith)

module _ (base : ℕ) (printed : IsPrintBase base) (upper : Bool) (v : ℕ)
    (fits : v ≤ uint64_max) where
  written :
      (least : ℕ)
      → least ≤ 20
      → (t : List ℕ) × (write_digits 20 least upper base v [] ≡ some t)
        × (simple_strtoull t base ≡ (v, []))
  written least l =
      let low : 2 ≤ base = omega (arith, printed) in
      let high : base ≤ 16 = omega (arith, printed) in
      let (t, w, r) =
        write_digits-Reads upper base low high 20 least v [] (fits_room base v printed fits) l
          (omega arith) in
      let capped : min v uint64_max ≡ v = omega (arith, fits) in
      (
        t,
        w,
        simple_strtoull-plain base high low t (r.digits ∙ unfold skip_digits in refl)
            ∙ rw (r.reads) (unfold value in ap (λ n. (n, [])) capped),
      )

  -- A number of 64 bits, printed in base 10 or 16 with either case of letters, never overruns `num_buf`,
  -- and `simple_strtoull` reads the text back as the number, to its end.
  pub simple_strtoull-unsigned_text :
      (t : List ℕ) × (unsigned_text base upper v ≡ some t) × (simple_strtoull t base ≡ (v, []))
  unfolding unsigned_text
  simple_strtoull-unsigned_text = written 0 (omega arith)

-- The same for the digits of a pointer.
pub simple_strtoull-pointer_text :
    (v : ℕ)
    → v ≤ uint64_max
    → (t : List ℕ) × (pointer_text v ≡ some t) × (simple_strtoull t 16 ≡ (v, []))
unfolding pointer_text
simple_strtoull-pointer_text v fits = written 16 (inr refl) false v fits 16 (omega arith)

-- A byte less of room makes no difference where it is enough, and then the text is short.
pub write_digits-room :
    (upper : Bool) (base room least v : ℕ) (s t : List ℕ)
    → write_digits room least upper base v s ≡ some t
    → (write_digits (suc room) least upper base v s ≡ some t) × (strlen t ≤ room + strlen s)
unfolding write_digits strlen
write_digits-room upper base zero least v s t e = cc
write_digits-room upper base (suc room) least v s t e =
    elim (Bool-cases (ltb 0 (v / base) || ltb 1 least)) [
      | inl d ↦
          let (w, l) =
            write_digits-room upper base room (least - 1) (v / base)
              (digit_char upper (v % base) ∷ s) t (rw (d, write_digits) at e) in
          (rw d w, omega (arith, l))
      | inr d ↦
          let same : some (digit_char upper (v % base) ∷ s) ≡ some t = rw d at e in
          let one : digit_char upper (v % base) ∷ s ≡ t = cc in
          (rw (d, one), rw (← one) (omega arith))
    ]

-- A magnitude of 63 bits and its sign.
pub write_digits-magnitude :
    (v : ℕ)
    → v ≤ 2 ^ 63
    → (t : List ℕ) × (write_digits 20 0 false 10 v [] ≡ some t) × (strlen t < 20)
write_digits-magnitude v h =
    let (t, w, r) =
      write_digits-Reads false 10 (omega arith) (omega arith) 19 0 v [] (omega arith) (omega arith)
        (omega arith) in
    let (e, l) = write_digits-room false 10 19 0 v [] t w in
    (t, e, unfold strlen in omega (arith, l))
