-- ===== src/Console/Overrun.antt =====
-- Where `kprintf` fills its buffer to the last byte, so that the NUL goes behind it.
use solace_os.Base.{
  length-append, ℕ, ◌+◌, ◌-◌, ◌<◌, ◌≡◌, ◌≢◌, refl, ◌∙◌, true, none, some, List, [], ◌∷◌, ◌++◌, ltb,
  length, arith, ==_of_ne,
}
use native.Mathlib.Nat.{zero-add, suc-add}
use mathlib.Core.List.{append-nil, append_assoc}
use solace_os.Console.{
  printf_buffer_size, Modifier, Arg, specifier, done, directive, put_specifier, kprintf_loop,
  kprintf,
}
use solace_os.Console.Typed.{copies, converts}

-- Text without a `%`.
abbrev pub IsOrdinary : List ℕ → Type 0
IsOrdinary [] = Unit {0}
IsOrdinary (c ∷ s) = (c ≢ b'%') × IsOrdinary s

has_room :
    (out : List ℕ)
    → length out < printf_buffer_size - 1
    → ltb (length out) (printf_buffer_size - 1) ≡ true
has_room out h = ground (arith, h)

copies_text :
    (fuel : ℕ) (s rest : List ℕ) (args : List Arg) (out : List ℕ)
    → IsOrdinary s
    → length out + length s < printf_buffer_size
    → kprintf_loop (length s + fuel) (s ++ rest) args out ≡ kprintf_loop fuel rest args (out ++ s)
copies_text fuel [] rest args out i h = rw (zero-add, append-nil)
copies_text fuel (c ∷ s) rest args out i h = rw (suc-add) (
    copies (length s + fuel) out args (has_room out (omega (arith, h))) c (s ++ rest)
      (==_of_ne c b'%' i.0)
    ∙ copies_text fuel s rest args (out ++ c ∷ []) i.1
        (omega (arith, length-append out (c ∷ []), h))
    ∙ rw append_assoc)

put_unknown :
    (m : Modifier) (c : ℕ) (out : List ℕ)
    → specifier c ≡ none
    → c ≢ b'%'
    → put_specifier m c [] out ≡ some (out ++ (b'%' ∷ c ∷ []), [])
unfolding put_specifier
put_unknown m c out e n = rw (put_specifier, e, ==_of_ne c b'%' n)

-- 1022 bytes of ordinary text, then a `%` and a byte that is no specifier: both bytes are copied, so
-- that the buffer is full and the NUL is written behind it.
pub kprintf-overrun :
    (s : List ℕ) (c : ℕ)
    → IsOrdinary s
    → length s ≡ 1022
    → (directive (c ∷ [])).1 ≡ c ∷ []
    → specifier c ≡ none
    → c ≢ b'%'
    → (kprintf (s ++ (b'%' ∷ c ∷ [])) [] ≡ done (s ++ (b'%' ∷ c ∷ [])))
      × (length (s ++ (b'%' ∷ c ∷ [])) ≡ printf_buffer_size)
unfolding kprintf
kprintf-overrun s c i l d e n = (run, omega (arith, length-append s (b'%' ∷ c ∷ []), l))
  where
    tail : List ℕ
    tail = b'%' ∷ c ∷ []

    fuel : length (s ++ tail) + 1 ≡ length s + 3
    fuel = omega (arith, length-append s tail)

    last : kprintf_loop 3 tail [] s ≡ done (s ++ tail)
    last =
        converts 2 s [] (has_room s (omega (arith, l))) (c ∷ []) [] c (s ++ tail, []) d
          (put_unknown (directive (c ∷ [])).0 c s e n)
        ∙ unfold kprintf_loop in refl

    run : kprintf_loop (length (s ++ tail) + 1) (s ++ tail) [] [] ≡ done (s ++ tail)
    run = rw fuel (copies_text 3 s tail [] [] i (omega (arith, l)) ∙ last)
