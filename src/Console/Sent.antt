-- ===== src/Console/Sent.antt =====
-- What the UART gets from a call of `kprintf`.
use solace_os.Base.{ℕ, ◌*◌, ◌≤◌, ◌≡◌, List, [], ◌∷◌, length, arith}
use solace_os.Uart.{uart_puts}
use solace_os.Uart.Output.{spaces, with_returns, Sends, uart_puts-Sends}
use solace_os.Console.{Arg, done, kprintf, until_nul, print}
use solace_os.Console.Typed.{Typed, kprintf-Typed}

length-until_nul : (s : List ℕ) → length (until_nul s) ≤ length s
unfolding until_nul
length-until_nul [] = omega arith
length-until_nul (c ∷ s) = ground (arith, length-until_nul s)

length-with_returns : (s : List ℕ) → length (with_returns s) ≤ 2 * length s
unfolding with_returns
length-with_returns [] = omega arith
length-with_returns (c ∷ s) = ground (arith, length-with_returns s)

print-done :
    (format : List ℕ) (args : List Arg) (flags out : List ℕ)
    → kprintf format args ≡ done out
    → print format args flags ≡ uart_puts (until_nul out) flags
unfolding print
print-done format args flags out e = rw (print, e)

-- A call of `kprintf` whose arguments fit its format ends once the flag register has shown space 2046
-- times, and the data register has got what is in the buffer before the first NUL, with a carriage
-- return behind every newline.
pub print-Sends :
    (format : List ℕ) (args : List Arg) (flags : List ℕ)
    → Typed format args
    → 2046 ≤ spaces flags
    → (out : List ℕ) × (kprintf format args ≡ done out)
      × Sends (with_returns (until_nul out)) flags (print format args flags)
print-Sends format args flags t h =
    let (out, e, l) = kprintf-Typed format args t in
    let fits : length (with_returns (until_nul out)) ≤ spaces flags =
      omega (arith, h, l, length-with_returns (until_nul out), length-until_nul out) in
    (out, e, rw (print-done format args flags out e) (uart_puts-Sends (until_nul out) flags fits))
