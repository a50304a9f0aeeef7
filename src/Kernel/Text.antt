-- ===== src/Kernel/Text.antt =====
-- The decimal number that `boot_debug_copy` prints, against the one that `kprintf` prints.
use solace_os.Base.{
  ℕ, ◌/◌, ◌%◌, ◌^◌, ◌<◌, ◌≡◌, refl, sym, ◌∙◌, inl, inr, false, some, [], ◌==◌, ltb, if◌then◌else◌,
  update, arith, Bool-cases, ==-eq, ==-ne,
}
use solace_os.Console.{digit_char, write_digits, unsigned_text}
use solace_os.Text.Buffer.{c_string}
use solace_os.Kernel.{
  size_str_length, write_backwards, reverse_loop, is_positive, fill_size_str, size_text,
}
use solace_os.Kernel.Digits.{Written, write_backwards-Written}
use solace_os.Kernel.Reverse.{reverse_loop-outside, reverse_loop-inside, c_string-backward}

-- Where the code fills `size_str` by its loops, the text is that of `kprintf`.
module _ (v : ℕ) (s : ℕ → ℕ) (positive : 0 < v) (small : v < 2 ^ 31) where
  digits : Written (write_backwards size_str_length v 0 s) (unsigned_text 10 false v) 15
  unfolding unsigned_text
  digits =
      write_backwards-Written 15 20 v 0 s positive (omega (arith, small)) (omega arith)
        λ a l. absurd (omega (arith, l))

  abbrev reversed : ℕ → ℕ
  reversed = reverse_loop (digits.count / 2) 0 digits.count digits.array

  reads-reversed : c_string size_str_length 0 reversed ≡ unsigned_text 10 false v
  reads-reversed =
      c_string-backward digits.count 16 0 digits.count digits.array reversed (omega arith)
        (omega (arith, digits.short))
        (λ b l.
          reverse_loop-inside digits.count (digits.count / 2) 0 digits.array b (omega arith)
            (omega arith) (omega arith) (omega (arith, l)))
        (reverse_loop-outside digits.count (digits.count / 2) 0 digits.array digits.count
            (omega arith) (inr (omega arith))
          ∙ digits.nul)
        digits.others
      ∙ sym digits.same

module _ (size : ℕ) (s : ℕ → ℕ) where
  text_zero : size % 2 ^ 32 ≡ 0 → size_text size s ≡ unsigned_text 10 false 0
  unfolding size_text fill_size_str c_string unsigned_text write_digits digit_char
  text_zero e = rw (size_text, fill_size_str, e) refl

  text_loops :
      (tmp w j : ℕ) (t : ℕ → ℕ)
      → size % 2 ^ 32 ≡ tmp
      → (tmp == 0) ≡ false
      → (if is_positive tmp then tmp else 0) ≡ w
      → write_backwards size_str_length w 0 s ≡ some (j, t)
      → size_text size s ≡ c_string size_str_length 0 (reverse_loop (j / 2) 0 j t)
  unfolding size_text fill_size_str
  text_loops tmp w j t e n p r = rw (size_text, fill_size_str, e, n, p, r) refl

  text_negative :
      (tmp : ℕ)
      → size % 2 ^ 32 ≡ tmp
      → is_positive tmp ≡ false
      → (tmp == 0) ≡ false
      → size_text size s ≡ some []
  unfolding write_backwards reverse_loop c_string
  text_negative tmp e p n = text_loops tmp 0 0 (update 0 0 s) e n (rw p refl) refl ∙ refl

-- The text that `boot_debug_copy` prints for a size, whatever the array on its stack held: the number
-- that `kprintf` prints in decimal for the low 32 bits, or nothing where these are a negative `int`.
pub size_text_lem :
    (size : ℕ) (size_str : ℕ → ℕ)
    → size_text size size_str
      ≡ (if ltb (size % 2 ^ 32) (2 ^ 31) then unsigned_text 10 false (size % 2 ^ 32) else some [])
size_text_lem size size_str = go (size % 2 ^ 32) refl
  where
    go :
        (tmp : ℕ)
        → size % 2 ^ 32 ≡ tmp
        → size_text size size_str
          ≡ (if ltb tmp (2 ^ 31) then unsigned_text 10 false tmp else some [])
    go tmp e = elim (Bool-cases (tmp == 0)) [
      | inl z ↦ rw (==-eq tmp 0 z) (text_zero size size_str (e ∙ ==-eq tmp 0 z))
      | inr z ↦ elim (Bool-cases (ltb tmp (2 ^ 31))) [
        | inr h ↦ rw h (text_negative size size_str tmp e (ground (arith, h)) z)
        | inl h ↦
            let pos : 0 < tmp = omega (arith, ==-ne tmp 0 z) in
            let small : tmp < 2 ^ 31 = ground (arith, h) in
            let w = digits tmp size_str pos small in
            rw h (
              text_loops size size_str tmp tmp w.count w.array e z (ground (arith, h, pos)) w.result
              ∙ reads-reversed tmp size_str pos small)
      ]
    ]
