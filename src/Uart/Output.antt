-- ===== src/Uart/Output.antt =====
-- What the UART sends once there is space often enough.
use solace_os.Base.{
  length-append, ℕ, ◌+◌, ◌≤◌, ◌≡◌, refl, sym, ap, ◌∙◌, subst, inl, inr, true, false, Option, some,
  List, [], ◌∷◌, ◌++◌, ◌==◌, if◌then◌else◌, length, arith, Bool-cases,
}
use solace_os.Uart.{transmit_full, wait_transmit, send, uart_putc, uart_puts}

-- How often there is space among some reads of the flag register.
unfoldable pub spaces : List ℕ → ℕ
spaces [] = 0
spaces (fr ∷ flags) = if transmit_full fr then spaces flags else spaces flags + 1

-- A carriage return behind every newline.
unfoldable pub with_returns : List ℕ → List ℕ
with_returns [] = []
with_returns (c ∷ s) = if c == 10 then c ∷ 13 ∷ with_returns s else c ∷ with_returns s

-- The bytes have been sent, with one space used for each.
abbrev pub Sends : List ℕ → List ℕ → Option (List ℕ × List ℕ) → Type 0
Sends bytes flags r =
    (rest : List ℕ) × (r ≡ some (bytes, rest)) × (spaces rest + length bytes ≡ spaces flags)

wait-some :
    (flags : List ℕ)
    → 1 ≤ spaces flags
    → (rest : List ℕ) × (wait_transmit flags ≡ some rest) × (spaces rest + 1 ≡ spaces flags)
unfolding wait_transmit spaces
wait-some [] h = absurd (omega arith)
wait-some (fr ∷ flags) h = elim (Bool-cases (transmit_full fr)) [
  | inl e ↦ rw (e, wait_transmit) (wait-some flags (rw e at h))
  | inr e ↦ rw (e, wait_transmit) (flags, refl, refl)
]

send-Sends : (c : ℕ) (flags : List ℕ) → 1 ≤ spaces flags → Sends (c ∷ []) flags (send c flags)
unfolding send
send-Sends c flags h = let (rest, e, n) = wait-some flags h in (rest, rw (send, e), n)

-- What `uart_putc` sends for a byte.
abbrev pub with_return : ℕ → List ℕ
with_return c = if c == 10 then c ∷ 13 ∷ [] else c ∷ []

module _ (c : ℕ) (flags rest : List ℕ) (p : send c flags ≡ some (c ∷ [], rest)) where
  putc_newline :
      (rest' : List ℕ)
      → send 13 rest ≡ some (13 ∷ [], rest')
      → (c == 10) ≡ true
      → uart_putc c flags ≡ some (c ∷ 13 ∷ [], rest')
  unfolding uart_putc
  putc_newline rest' q e = rw (uart_putc, p, e, q)

  putc_other : (c == 10) ≡ false → uart_putc c flags ≡ some (c ∷ [], rest)
  unfolding uart_putc
  putc_other e = rw (uart_putc, p, e)

uart_putc-Sends :
    (c : ℕ) (flags : List ℕ)
    → length (with_return c) ≤ spaces flags
    → Sends (with_return c) flags (uart_putc c flags)
uart_putc-Sends c flags h = elim (Bool-cases (c == 10)) [
  | inl e ↦
      let two : 2 ≤ spaces flags = rw e at h in
      let (rest, p, n) = send-Sends c flags (omega (arith, two)) in
      let (rest', q, k) = send-Sends 13 rest (omega (arith, two, n)) in
      let bytes : with_return c ≡ c ∷ 13 ∷ [] = rw e in
      subst (λ b. Sends b flags (uart_putc c flags)) (sym bytes)
        (rest', putc_newline c flags rest p rest' q e, omega (arith, n, k))
  | inr e ↦
      let one : 1 ≤ spaces flags = rw e at h in
      let (rest, p, n) = send-Sends c flags one in
      let bytes : with_return c ≡ c ∷ [] = rw e in
      subst (λ b. Sends b flags (uart_putc c flags)) (sym bytes)
        (rest, putc_other c flags rest p e, n)
]

with_returns-cons : (c : ℕ) (s : List ℕ) → with_returns (c ∷ s) ≡ with_return c ++ with_returns s
unfolding with_returns
with_returns-cons c s = elim (Bool-cases (c == 10)) [ inl e ↦ rw e | inr e ↦ rw e ]

puts_step :
    (c : ℕ) (s a b flags rest rest' : List ℕ)
    → uart_putc c flags ≡ some (a, rest)
    → uart_puts s rest ≡ some (b, rest')
    → uart_puts (c ∷ s) flags ≡ some (a ++ b, rest')
unfolding uart_puts
puts_step c s a b flags rest rest' p q = rw (uart_puts, p, q)

-- If the flag register shows space at least as often as there are bytes to send, the output loop of
-- `kprintf` ends, and the data register has got the text with a carriage return behind every newline.
pub uart_puts-Sends :
    (s flags : List ℕ)
    → length (with_returns s) ≤ spaces flags
    → Sends (with_returns s) flags (uart_puts s flags)
unfolding uart_puts
uart_puts-Sends [] flags h = unfold with_returns in (flags, refl, omega arith)
uart_puts-Sends (c ∷ s) flags h =
    let cut = with_returns-cons c s in
    let sum : length (with_returns (c ∷ s)) ≡ length (with_return c) + length (with_returns s) =
      ap length cut ∙ length-append (with_return c) (with_returns s) in
    let (rest, p, n) = uart_putc-Sends c flags (omega (arith, sum, h)) in
    let (rest', q, k) = uart_puts-Sends s rest (omega (arith, sum, h, n)) in
    (
      rest',
      puts_step c s (with_return c) (with_returns s) flags rest rest' p q
          ∙ ap (λ t. some (t, rest')) (sym cut),
      omega (arith, sum, n, k),
    )
