-- ===== src/Uart/Input.antt =====
-- What `kgetc_blocking` delivers, call after call.
use solace_os.Base.{
  ℕ, ◌≡◌, refl, inl, inr, Option, none, some, List, [], ◌∷◌, ◌==◌, if◌then◌else◌, Bool-cases,
}
use solace_os.Uart.{uart_getc, kgetc_blocking}

-- The bytes other than 0 among some reads of the device, with CR turned to LF.
pub arrivals : List (ℕ × ℕ) → List ℕ
arrivals [] = []
arrivals (r ∷ reads) =
    let rest = arrivals reads in
    if uart_getc r == 0 then rest else if uart_getc r == 13 then 10 ∷ rest else uart_getc r ∷ rest

-- The bytes that a result of `kgetc_blocking` stands for.
pub delivered : Option (ℕ × List (ℕ × ℕ)) → List ℕ
unfolding arrivals
delivered none = []
delivered (some (c, reads)) = c ∷ arrivals reads

-- A call returns the first byte other than 0 that arrives, and leaves the others for the calls that follow;
-- it waits as long as no such byte has arrived.
pub kgetc_blocking-arrivals :
    (reads : List (ℕ × ℕ)) → delivered (kgetc_blocking reads) ≡ arrivals reads
unfolding kgetc_blocking delivered arrivals
kgetc_blocking-arrivals [] = refl
kgetc_blocking-arrivals (r ∷ reads) = elim (Bool-cases (uart_getc r == 0)) [
  | inl e ↦ rw (e, kgetc_blocking) (kgetc_blocking-arrivals reads)
  | inr e ↦
      rw (e, kgetc_blocking) (elim (Bool-cases (uart_getc r == 13)) [ inl f ↦ rw f | inr f ↦ rw f ])
]
