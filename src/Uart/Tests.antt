-- ===== src/Uart/Tests.antt =====
-- Runs of the UART driver, and its theorems for concrete answers of the device.
use solace_os.Base.{ℕ, ◌≡◌, refl, none, some, List, [], ◌∷◌, codes}
use solace_os.Uart.{uart_puts, early_debug_print, kgetc_blocking}
use solace_os.Uart.Input.{arrivals, delivered, kgetc_blocking-arrivals}

-- The transmit FIFO is full at the second read.
abbrev flags : List ℕ
flags = 0x90 ∷ 0x20 ∷ 0x90 ∷ 0x90 ∷ 0x90 ∷ []

-- Nothing, then a carriage return, a NUL and a letter.
abbrev reads : List (ℕ × ℕ)
reads = (0x10, 0) ∷ (0, 13) ∷ (0, 0) ∷ (0, 65) ∷ []

uart_run :
    (uart_puts (codes "a\nb") flags ≡ some (97 ∷ 10 ∷ 13 ∷ 98 ∷ [], []))
    × (uart_puts (codes "a\nb") (0x20 ∷ 0 ∷ []) ≡ none)
    × (early_debug_print (codes "a\n") flags ≡ some (97 ∷ 10 ∷ [], 0x90 ∷ 0x90 ∷ []))
    × (kgetc_blocking reads ≡ some (10, (0, 0) ∷ (0, 65) ∷ []))
unfolding uart_puts early_debug_print kgetc_blocking
uart_run = (refl, refl, refl, refl)

kgetc_blocking-arrivals_example : delivered (kgetc_blocking reads) ≡ arrivals reads
kgetc_blocking-arrivals_example = kgetc_blocking-arrivals reads
