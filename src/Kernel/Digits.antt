-- ===== src/Kernel/Digits.antt =====
-- The digits that `boot_debug_copy` writes backwards, and those that `kprintf` writes.
use native.Mathlib.Nat.{pow-suc, pow-zero, div-lt_iff_lt-mul, mod-lt}
use solace_os.Base.{
  ℕ, zero, suc, ◌+◌, ◌/◌, ◌%◌, ◌^◌, ◌≤◌, ◌<◌, ◌≡◌, ◌≢◌, refl, sym, ap, ◌∙◌, inl, inr, false, Option,
  some, List, [], ◌∷◌, ltb, update, arith, Bool-cases,
}
use solace_os.Console.{digit_char, write_digits}
use solace_os.Kernel.{write_backwards}

-- The first `n` bytes of an array, the last one first.
abbrev pub backward : ℕ → (ℕ → ℕ) → List ℕ
backward zero s = []
backward (suc n) s = s n ∷ backward n s

backward-agree : (n : ℕ) (s t : ℕ → ℕ) → ((a : ℕ) → a < n → s a ≡ t a) → backward n s ≡ backward n t
backward-agree zero s t h = refl
backward-agree (suc n) s t h =
    rw (h n (omega arith), backward-agree n s t λ a l. h a (omega (arith, l)))

backward-update : (n a c : ℕ) (s : ℕ → ℕ) → n ≤ a → backward n (update a c s) ≡ backward n s
backward-update n a c s l = backward-agree n (update a c s) s λ b h. ground (arith, h, l)

-- The digits have been written: `j` bytes other than NUL, then the NUL.
pub record Written (r : Option (ℕ × (ℕ → ℕ))) (text : Option (List ℕ)) (most : ℕ) : Type 0 where
  pub count : ℕ
  pub array : ℕ → ℕ
  pub result : r ≡ some (count, array)
  pub short : count ≤ most
  pub nul : array count ≡ 0
  pub others : (a : ℕ) → a < count → array a ≢ 0
  pub same : text ≡ some (backward count array)

Written-eq :
    {r r' : Option (ℕ × (ℕ → ℕ))} {text text' : Option (List ℕ)} {most most' : ℕ}
    → r ≡ r'
    → text ≡ text'
    → most' ≤ most
    → Written r' text' most'
    → Written r text most
Written-eq e f l w = record {
  count = w.count;
  array = w.array;
  result = e ∙ w.result;
  short = omega (arith, l, w.short);
  nul = w.nul;
  others = w.others;
  same = f ∙ w.same;
}

module _ (v i : ℕ) (s : ℕ → ℕ) where
  wrote : ℕ → ℕ
  wrote = update i (b'0' + v % 10) s

  backwards_more :
      (room : ℕ)
      → 0 < v
      → write_backwards (suc room) v i s ≡ write_backwards room (v / 10) (i + 1) wrote
  unfolding write_backwards wrote
  backwards_more room p = ground (arith, p)

  backwards_end : (room : ℕ) → v ≡ 0 → write_backwards (suc room) v i s ≡ some (i, update i 0 s)
  unfolding write_backwards
  backwards_end room e = ground (arith, e)

  mod_digit : digit_char false (v % 10) ≡ b'0' + v % 10
  unfolding digit_char
  mod_digit = ground (arith, mod-lt v {m = 10} (omega arith))

  at_end : b'0' + v % 10 ≡ wrote i
  unfolding wrote
  at_end = ground arith

  same_before : backward i wrote ≡ backward i s
  unfolding wrote
  same_before = backward-update i i (b'0' + v % 10) s (omega arith)

  wrote-backward : digit_char false (v % 10) ∷ backward i s ≡ backward (i + 1) wrote
  wrote-backward =
      let one : suc i ≡ i + 1 = omega arith in
      rw mod_digit (
        ap (λ t. (b'0' + v % 10) ∷ t) (sym same_before)
        ∙ ap (λ c. c ∷ backward i wrote) at_end
        ∙ ap (λ n. backward n wrote) one)

  digits_more :
      (n : ℕ)
      → 0 < v / 10
      → write_digits (suc n) 0 false 10 v (backward i s)
        ≡ write_digits n 0 false 10 (v / 10) (backward (i + 1) wrote)
  unfolding write_digits
  digits_more n p =
      ground (arith, p) ∙ ap (λ t. write_digits n 0 false 10 (v / 10) t) wrote-backward

  digits_end :
      (n : ℕ)
      → v / 10 ≡ 0
      → write_digits (suc n) 0 false 10 v (backward i s) ≡ some (backward (i + 1) wrote)
  unfolding write_digits
  digits_end n e = ground (arith, e) ∙ ap some wrote-backward

  wrote-others : ((a : ℕ) → a < i → s a ≢ 0) → (a : ℕ) → a < i + 1 → wrote a ≢ 0
  unfolding wrote
  wrote-others o a l = ground (arith, o a)

-- The loop of `boot_debug_copy` and that of `kprintf` write the same digits.
pub write_backwards-Written :
    (room n v i : ℕ) (s : ℕ → ℕ)
    → 0 < v
    → v < 10 ^ room
    → room ≤ n
    → ((a : ℕ) → a < i → s a ≢ 0)
    → Written
        (write_backwards (suc room) v i s)
        (write_digits n 0 false 10 v (backward i s))
        (i + room)
write_backwards-Written zero n v i s p h l o =
    let one : v < 1 = rw pow-zero at h in absurd (omega (arith, one, p))
write_backwards-Written (suc room) zero v i s p h l o = absurd (omega (arith, l))
write_backwards-Written (suc room) (suc n) v i s p h l o = elim (Bool-cases (ltb 0 (v / 10))) [
  | inl e ↦
      let fits : v / 10 < 10 ^ room =
        (div-lt_iff_lt-mul {k = 10} {x = v} {y = 10 ^ room} (omega arith)).1 (rw pow-suc at h) in
      let w =
        write_backwards-Written room n (v / 10) (i + 1) (wrote v i s) (ground (arith, e)) fits
          (omega (arith, l)) (wrote-others v i s o) in
      Written-eq (backwards_more v i s (suc room) p) (digits_more v i s n (ground (arith, e)))
        (omega arith) w
  | inr e ↦ record {
    count = i + 1;
    array = update (i + 1) 0 (wrote v i s);
    result =
        backwards_more v i s (suc room) p
        ∙ backwards_end (v / 10) (i + 1) (wrote v i s) room (ground (arith, e));
    short = omega arith;
    nul = ground arith;
    others = λ a b. ground (arith, wrote-others v i s o a b, b);
    same =
        digits_end v i s n (ground (arith, e))
        ∙ ap some (sym (backward-update (i + 1) (i + 1) 0 (wrote v i s) (omega arith)));
  }
]
