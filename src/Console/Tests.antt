-- ===== src/Console/Tests.antt =====
-- Runs of `kprintf`, and its theorems at concrete calls.
use solace_os.Base.{
  ℕ, zero, suc, ◌≡◌, refl, inr, true, none, some, List, [], ◌∷◌, ◌++◌, length, codes, arith,
}
use solace_os.Text.{first_byte, advance}
use solace_os.Number.{simple_strtoull}
use solace_os.Console.{
  word, text, printf_buffer_size, done, undefined, skip_flags, skip_width, read_modifier,
  unsigned_text, kprintf, until_nul, print,
}
use solace_os.Uart.Output.{spaces, with_returns, Sends}
use solace_os.Console.Sent.{print-Sends}
use solace_os.Console.Digits.{simple_strtoull-unsigned_text}
use solace_os.Console.Overrun.{IsOrdinary, kprintf-overrun}
use solace_os.Console.Typed.{ordinary, conversion, nothing, Finishes, kprintf-Typed}

kprintf_run :
    (kprintf (codes "%d of %s%%") (word 0xffff_ffff ∷ text (some (codes "7")) ∷ [])
      ≡ done (codes "-1 of 7%"))
    × (kprintf (codes "%016llx %lu") (word 0xbeef ∷ word 10 ∷ []) ≡ done (codes "beef 10"))
    × (kprintf (codes "%p%s%q") (word 0xa0 ∷ text none ∷ [])
        ≡ done (codes "0x00000000000000a0(null)%q"))
    × (kprintf (codes "%s") [] ≡ undefined)
    × (kprintf (codes "50%") [] ≡ undefined)
unfolding kprintf skip_flags skip_width read_modifier first_byte advance solace_os.Text.strlen
    solace_os.Text.prefix_of
kprintf_run = (refl, refl, refl, refl, refl)

kprintf-Typed_example : Finishes (kprintf (codes "a%ld") (word 5 ∷ []))
unfolding skip_flags skip_width read_modifier first_byte advance
kprintf-Typed_example =
    kprintf-Typed (codes "a%ld") (word 5 ∷ [])
      (ordinary (λ e. omega (arith, e)) (conversion {d = b'd'} refl refl tt nothing))

-- A UART that always has space.
ready : ℕ → List ℕ
ready zero = []
ready (suc n) = 0x90 ∷ ready n

spaces-ready : (n : ℕ) → spaces (ready n) ≡ n
unfolding ready spaces
spaces-ready zero = refl
spaces-ready (suc n) = omega (arith, spaces-ready n)

print-Sends_example :
    (out : List ℕ) × (kprintf (codes "a%ld") (word 5 ∷ []) ≡ done out)
    × Sends
        (with_returns (until_nul out))
        (ready 2046)
        (print (codes "a%ld") (word 5 ∷ []) (ready 2046))
unfolding skip_flags skip_width read_modifier first_byte advance
print-Sends_example =
    print-Sends (codes "a%ld") (word 5 ∷ []) (ready 2046)
      (ordinary (λ e. omega (arith, e)) (conversion {d = b'd'} refl refl tt nothing))
      (omega (arith, spaces-ready 2046))

letters : ℕ → List ℕ
letters zero = []
letters (suc n) = b'a' ∷ letters n

letters-IsOrdinary : (n : ℕ) → IsOrdinary (letters n)
unfolding letters
letters-IsOrdinary zero = tt
letters-IsOrdinary (suc n) = (λ e. omega (arith, e), letters-IsOrdinary n)

length-letters : (n : ℕ) → length (letters n) ≡ n
unfolding letters
length-letters zero = refl
length-letters (suc n) = omega (arith, length-letters n)

kprintf-overrun_example :
    (kprintf (letters 1022 ++ codes "%q") [] ≡ done (letters 1022 ++ codes "%q"))
    × (length (letters 1022 ++ codes "%q") ≡ printf_buffer_size)
unfolding skip_flags skip_width read_modifier first_byte advance
kprintf-overrun_example =
    kprintf-overrun (letters 1022) b'q' (letters-IsOrdinary 1022) (length-letters 1022) refl refl
      (λ e. omega (arith, e))

simple_strtoull-unsigned_text_example :
    (t : List ℕ) × (unsigned_text 16 true 0xbeef ≡ some t) × (simple_strtoull t 16 ≡ (0xbeef, []))
simple_strtoull-unsigned_text_example =
    simple_strtoull-unsigned_text 16 (inr refl) true 0xbeef (omega arith)
