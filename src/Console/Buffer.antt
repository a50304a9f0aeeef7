-- ===== src/Console/Buffer.antt =====
-- How far each case of `kprintf` fills the buffer.
use solace_os.Base.{
  length-append, ℕ, zero, suc, ◌+◌, ◌-◌, ◌%◌, ◌^◌, ◌≤◌, ◌<◌, ◌≡◌, refl, ◌⊎◌, inl, inr, Bool, true,
  false, not, Option, none, some, List, [], ◌∷◌, ◌++◌, ltb, if◌then◌else◌, length, arith,
  Bool-cases, uint64_max,
}
use solace_os.Text.{strlen, prefix_of}
use solace_os.Console.{
  printf_buffer_size, max_int_digits, Modifier, plain, long, longlong, size_t, Arg, word, text,
  Specifier, character, string, signed, unsigned, hex, hex_upper, pointer, read_unsigned,
  read_signed, unsigned_text, signed_text, put_text, put_number, put_prefix, put_arg, string_of,
}
use solace_os.Console.Digits.{
  simple_strtoull-unsigned_text, simple_strtoull-pointer_text, write_digits-magnitude,
}

length-prefix_of : (n : ℕ) (s : List ℕ) → length (prefix_of n s) ≤ n
unfolding prefix_of
length-prefix_of zero s = omega arith
length-prefix_of (suc n) [] = omega arith
length-prefix_of (suc n) (c ∷ s) = omega (arith, length-prefix_of n s)

ltb_of_lt : (a b : ℕ) → a < b → ltb a b ≡ true
ltb_of_lt a b h = ground arith

-- A buffer with room for another byte before the last.
abbrev pub HasRoom : List ℕ → Type 0
HasRoom out = length out < printf_buffer_size - 1

-- A buffer with room for the NUL.
abbrev pub Ends : List ℕ → Type 0
Ends out = length out < printf_buffer_size

put_text-Ends : (out s : List ℕ) → HasRoom out → Ends (put_text out s)
unfolding put_text
put_text-Ends out s h =
    let room = printf_buffer_size - length out - 1 in
    let n = if ltb room (strlen s) then room else strlen s in
    let short : n ≤ room = ground arith in
    omega (arith, length-append out (prefix_of n s), length-prefix_of n s, short, h)

put_prefix-HasRoom : (out : List ℕ) → HasRoom out → HasRoom (put_prefix out)
unfolding put_prefix
put_prefix-HasRoom out h = elim (Bool-cases (ltb (length out + 2) (printf_buffer_size - 1))) [
  | inl e ↦
      let l : length out + 2 < printf_buffer_size - 1 = ground (arith, e) in
      rw e (omega (arith, length-append out (b'0' ∷ b'x' ∷ []), l))
  | inr e ↦ rw e h
]

-- What an unsigned argument is.
read_unsigned-fits : (m : Modifier) (w : ℕ) → read_unsigned m w ≤ uint64_max
unfolding read_unsigned
read_unsigned-fits plain w = omega arith
read_unsigned-fits long w = omega arith
read_unsigned-fits longlong w = omega arith
read_unsigned-fits size_t w = omega arith

read_signed-fits : (m : Modifier) (w : ℕ) → (read_signed m w).1 ≤ 2 ^ 63
unfolding read_signed
read_signed-fits plain w = ground arith
read_signed-fits long w = ground arith
read_signed-fits longlong w = ground arith
read_signed-fits size_t w = ground arith

-- The texts of numbers fit `num_buf`.
unsigned_text-fits :
    (base : ℕ) (upper : Bool) (v : ℕ)
    → (base ≡ 10) ⊎ (base ≡ 16)
    → v ≤ uint64_max
    → (t : List ℕ) × (unsigned_text base upper v ≡ some t)
unsigned_text-fits base upper v b h =
    let (t, e, r) = simple_strtoull-unsigned_text base b upper v h in (t, e)

-- The sign of a negative number has its place in front of the digits: 19 digits are enough for the
-- magnitude.
pub signed_text-fits :
    (negative : Bool) (v : ℕ) → v ≤ 2 ^ 63 → (t : List ℕ) × (signed_text (negative, v) ≡ some t)
unfolding signed_text unsigned_text
signed_text-fits negative v h =
    let (t, w, l) = write_digits-magnitude v h in rw (signed_text, w) (sign negative t l)
  where
    sign :
        (n : Bool) (t : List ℕ)
        → strlen t < 20
        → (r : List ℕ) × ((if not n
              then some t
              else if ltb (strlen t) (max_int_digits - 1)
              then some (b'-' ∷ t)
              else none)
            ≡ some r)
    sign true t l = (b'-' ∷ t, rw (ltb_of_lt (strlen t) 20 l))
    sign false t l = (t, refl)

-- An argument of the kind that a specifier asks for.
abbrev pub HasKind : Specifier → Arg → Type 0
HasKind string (text s) = Unit {0}
HasKind string (word w) = ⊥
HasKind _ (word w) = Unit {0}
HasKind _ (text s) = ⊥

-- A case of the switch succeeds on such an argument, and leaves room for the NUL.
abbrev pub Fits : Option (List ℕ) → Type 0
Fits r = (out : List ℕ) × (r ≡ some out) × Ends out

put_number-Fits :
    (out : List ℕ) (t : Option (List ℕ)) (s : List ℕ)
    → HasRoom out
    → t ≡ some s
    → Fits (put_number out t)
unfolding put_number
put_number-Fits out t s h e = rw e (put_text out s, refl, put_text-Ends out s h)

pub put_arg-Fits :
    (m : Modifier) (k : Specifier) (arg : Arg) (out : List ℕ)
    → HasKind k arg
    → HasRoom out
    → Fits (put_arg m k arg out)
unfolding put_arg
put_arg-Fits m character (word w) out i h =
    (out ++ (w % 256) ∷ [], refl, omega (arith, length-append out ((w % 256) ∷ []), h))
put_arg-Fits m string (text s) out i h = (_, refl, put_text-Ends out (string_of s) h)
put_arg-Fits m signed (word w) out i h =
    let (t, e) = signed_text-fits (read_signed m w).0 (read_signed m w).1 (read_signed-fits m w) in
    put_number-Fits out _ t h e
put_arg-Fits m unsigned (word w) out i h =
    let (t, e) =
      unsigned_text-fits 10 false (read_unsigned m w) (inl refl) (read_unsigned-fits m w) in
    put_number-Fits out _ t h e
put_arg-Fits m hex (word w) out i h =
    let (t, e) =
      unsigned_text-fits 16 false (read_unsigned m w) (inr refl) (read_unsigned-fits m w) in
    put_number-Fits out _ t h e
put_arg-Fits m hex_upper (word w) out i h =
    let (t, e) =
      unsigned_text-fits 16 true (read_unsigned m w) (inr refl) (read_unsigned-fits m w) in
    put_number-Fits out _ t h e
put_arg-Fits m pointer (word w) out i h =
    let (t, e, r) = simple_strtoull-pointer_text (w % 2 ^ 64) (omega arith) in
    put_number-Fits (put_prefix out) _ t (put_prefix-HasRoom out h) e
put_arg-Fits m character (text s) out i h = elim i [ ]
put_arg-Fits m string (word w) out i h = elim i [ ]
put_arg-Fits m signed (text s) out i h = elim i [ ]
put_arg-Fits m unsigned (text s) out i h = elim i [ ]
put_arg-Fits m hex (text s) out i h = elim i [ ]
put_arg-Fits m hex_upper (text s) out i h = elim i [ ]
put_arg-Fits m pointer (text s) out i h = elim i [ ]
