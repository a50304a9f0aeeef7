-- ===== src/Uart.antt =====
-- lib/uart.c, and the loops of lib/stdio.c and boot/kernel.c that send to and read from the UART. What
-- the device answers is given: the list of the values that its flag register is read with, in order,
-- and for a byte that is received also the value of the data register.
pub mod Output
pub mod Input
mod Tests
use solace_os.Base.{
  ℕ, zero, suc, ◌+◌, ◌/◌, ◌%◌, Bool, true, false, Option, none, some, List, [], ◌∷◌, ◌++◌, ◌==◌,
  if◌then◌else◌,
}

abbrev pub uart_base : ℕ
uart_base = 0x0900_0000

-- The registers that `uart_init` writes.
pub data Register : Type 0 where
  data_register ibrd fbrd lcrh control imsc : Register

-- The stores of `uart_init`, in order.
abbrev pub uart_init : List (Register × ℕ)
uart_init =
    (control, 0)
    ∷ (ibrd, 26)
    ∷ (fbrd, 3)
    ∷ (lcrh, 0x60 + 0x10)
    ∷ (imsc, 0)
    ∷ (control, 0x01 + 0x100 + 0x200)
    ∷ []

-- `UART_FR_RXFE` and `UART_FR_TXFF` in a value of the flag register.
abbrev pub receive_empty : ℕ → Bool
receive_empty fr = fr / 0x10 % 2 == 1

abbrev pub transmit_full : ℕ → Bool
transmit_full fr = fr / 0x20 % 2 == 1

-- The wait for space in the FIFO: the reads that are left; `none` if it still waits.
unfoldable pub wait_transmit : List ℕ → Option (List ℕ)
wait_transmit [] = none
wait_transmit (fr ∷ flags) = elim (transmit_full fr) [
  | true ↦ wait_transmit flags
  | false ↦ some flags
]

-- Waits and then stores one byte: what the data register gets, and the reads that are left.
unfoldable pub send : ℕ → List ℕ → Option (List ℕ × List ℕ)
unfolding wait_transmit
send c flags = elim (wait_transmit flags) [ none ↦ none | some rest ↦ some (c ∷ [], rest) ]

-- `uart_putc`: a newline is followed by a carriage return, which `uart_putc` sends in turn.
pub uart_putc : ℕ → List ℕ → Option (List ℕ × List ℕ)
unfolding send
uart_putc c flags = elim (send c flags) [
  | none ↦ none
  | some (sent, rest) ↦
      if c == 10
      then elim (send 13 rest) [ none ↦ none | some (more, rest') ↦ some (sent ++ more, rest') ]
      else some (sent, rest)
]

-- The loop over the buffer at the end of `kprintf`.
pub uart_puts : List ℕ → List ℕ → Option (List ℕ × List ℕ)
unfolding uart_putc
uart_puts [] flags = some ([], flags)
uart_puts (c ∷ s) flags = elim (uart_putc c flags) [
  | none ↦ none
  | some (sent, rest) ↦ elim (uart_puts s rest) [
    | none ↦ none
    | some (more, rest') ↦ some (sent ++ more, rest')
  ]
]

-- `early_debug_print` of the boot code, which sends no carriage returns.
unfoldable pub early_debug_print : List ℕ → List ℕ → Option (List ℕ × List ℕ)
unfolding send
early_debug_print [] flags = some ([], flags)
early_debug_print (c ∷ s) flags = elim (send c flags) [
  | none ↦ none
  | some (sent, rest) ↦ elim (early_debug_print s rest) [
    | none ↦ none
    | some (more, rest') ↦ some (sent ++ more, rest')
  ]
]

-- `uart_getc`, when the flag register is `fr` and the data register `dr`.
abbrev pub uart_getc : ℕ × ℕ → ℕ
uart_getc (fr, dr) = if receive_empty fr then 0 else dr % 256

abbrev pub uart_is_data_available : ℕ → Bool
uart_is_data_available fr = if receive_empty fr then false else true

-- `kgetc_blocking`: a byte other than 0, with CR turned to LF, and the reads that are left.
pub kgetc_blocking : List (ℕ × ℕ) → Option (ℕ × List (ℕ × ℕ))
kgetc_blocking [] = none
kgetc_blocking (r ∷ reads) = elim (uart_getc r == 0) [
  | true ↦ kgetc_blocking reads
  | false ↦ some (if uart_getc r == 13 then 10 else uart_getc r, reads)
]
