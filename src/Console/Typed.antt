-- ===== src/Console/Typed.antt =====
-- Calls of `kprintf` whose arguments are what the format asks for, and calls that overrun the buffer.
use solace_os.Base.{
  length-append, ℕ, zero, suc, ◌+◌, ◌-◌, ◌≤◌, ◌<◌, ◌≡◌, ◌≢◌, refl, inl, inr, true, false, some,
  List, [], ◌∷◌, ◌++◌, ◌==◌, ltb, length, arith, Bool-cases, ==_of_ne,
}
use solace_os.Text.{advance}
use solace_os.Console.{
  printf_buffer_size, Modifier, Arg, Specifier, specifier, Printed, done, skip_flags, skip_width,
  read_modifier, directive, put_specifier, put_arg, kprintf_loop, kprintf,
}
use solace_os.Console.Buffer.{HasRoom, Ends, HasKind, put_arg-Fits}

length-advance : (n : ℕ) (s : List ℕ) → length (advance n s) ≤ length s
unfolding advance
length-advance zero s = omega arith
length-advance (suc n) [] = omega arith
length-advance (suc n) (c ∷ s) = omega (arith, length-advance n s)

length-skip_flags : (s : List ℕ) → length (skip_flags s) ≤ length s
unfolding skip_flags
length-skip_flags [] = omega arith
length-skip_flags (c ∷ s) = ground (arith, length-skip_flags s)

length-skip_width : (s : List ℕ) → length (skip_width s) ≤ length s
unfolding skip_width
length-skip_width [] = omega arith
length-skip_width (c ∷ s) = ground (arith, length-skip_width s)

length-read_modifier : (s : List ℕ) → length (read_modifier s).1 ≤ length s
unfolding read_modifier
length-read_modifier s = ground (arith, length-advance 1 s, length-advance 2 s)

-- The directive takes up part of the format.
pub length-directive : (s : List ℕ) → length (directive s).1 ≤ length s
length-directive s = omega (
  arith,
  length-read_modifier (skip_width (skip_flags s)),
  length-skip_width (skip_flags s),
  length-skip_flags s,
)

-- The arguments fit the format: every `%` is followed by a specifier that is known, with an argument
-- of its kind, or by another `%`. Arguments that are left over do no harm.
pub data Typed : List ℕ → List Arg → Type 0 where
  nothing : {args : List Arg} → Typed [] args
  ordinary :
      {c : ℕ} {format : List ℕ} {args : List Arg}
      → c ≢ b'%'
      → Typed format args
      → Typed (c ∷ format) args
  percent :
      {format rest : List ℕ} {args : List Arg}
      → (directive format).1 ≡ b'%' ∷ rest
      → Typed rest args
      → Typed (b'%' ∷ format) args
  conversion :
      {format rest : List ℕ} {args : List Arg} {d : ℕ} {k : Specifier} {arg : Arg}
      → (directive format).1 ≡ d ∷ rest
      → specifier d ≡ some k
      → HasKind k arg
      → Typed rest args
      → Typed (b'%' ∷ format) (arg ∷ args)

-- The call comes to an end, and leaves room for the NUL.
abbrev pub Finishes : Printed → Type 0
Finishes r = (out : List ℕ) × (r ≡ done out) × Ends out

module _ (fuel : ℕ) (out : List ℕ) (args : List Arg) where
  stops :
      (c : ℕ) (s : List ℕ)
      → ltb (length out) (printf_buffer_size - 1) ≡ false
      → kprintf_loop (suc fuel) (c ∷ s) args out ≡ done out
  unfolding kprintf_loop
  stops c s e = rw (e, kprintf_loop)

  module _ (room : ltb (length out) (printf_buffer_size - 1) ≡ true) where
    pub copies :
        (c : ℕ) (s : List ℕ)
        → (c == b'%') ≡ false
        → kprintf_loop (suc fuel) (c ∷ s) args out ≡ kprintf_loop fuel s args (out ++ c ∷ [])
    unfolding kprintf_loop
    copies c s e = rw (kprintf_loop, room, e)

    pub converts :
        (s rest : List ℕ) (d : ℕ) (r : List ℕ × List Arg)
        → (directive s).1 ≡ d ∷ rest
        → put_specifier (directive s).0 d args out ≡ some r
        → kprintf_loop (suc fuel) (b'%' ∷ s) args out ≡ kprintf_loop fuel rest r.1 r.0
    unfolding kprintf_loop
    converts s rest d r e p = rw (kprintf_loop, room, e, p)

put_percent :
    (m : Modifier) (args : List Arg) (out : List ℕ)
    → put_specifier m b'%' args out ≡ some (out ++ b'%' ∷ [], args)
unfolding put_specifier
put_percent m args out = refl

put_conversion :
    (m : Modifier) (d : ℕ) (k : Specifier) (arg : Arg) (args : List Arg) (out t : List ℕ)
    → specifier d ≡ some k
    → put_arg m k arg out ≡ some t
    → put_specifier m d (arg ∷ args) out ≡ some (t, args)
unfolding put_specifier
put_conversion m d k arg args out t e p = rw (put_specifier, e, p)

room_of : (out : List ℕ) → ltb (length out) (printf_buffer_size - 1) ≡ true → HasRoom out
room_of out e = ground (arith, e)

Ends-snoc : (out : List ℕ) (c : ℕ) → HasRoom out → Ends (out ++ c ∷ [])
Ends-snoc out c h = omega (arith, length-append out (c ∷ []), h)

shorter :
    (s rest : List ℕ) (d fuel : ℕ)
    → (directive s).1 ≡ d ∷ rest
    → length s < fuel
    → length rest < fuel
shorter s rest d fuel e h =
    let l : length (d ∷ rest) ≤ length s = rw e at (length-directive s) in omega (arith, l, h)

loop-Finishes :
    (fuel : ℕ) (format : List ℕ) (args : List Arg) (out : List ℕ)
    → Typed format args
    → length format < fuel
    → Ends out
    → Finishes (kprintf_loop fuel format args out)
loop-Finishes zero format args out t l h = absurd (omega (arith, l))
loop-Finishes (suc fuel) _ args out nothing l h = (out, unfold kprintf_loop in refl, h)
loop-Finishes (suc fuel) _ args out (ordinary {c = c} {format = s} n t) l h =
    elim (Bool-cases (ltb (length out) (printf_buffer_size - 1))) [
      | inr e ↦ (out, stops fuel out args c s e, h)
      | inl e ↦ rw (copies fuel out args e c s (==_of_ne c b'%' n)) (
          loop-Finishes fuel s args (out ++ c ∷ []) t (omega (arith, l))
            (Ends-snoc out c (room_of out e)))
    ]
loop-Finishes (suc fuel) _ args out (percent {format = s} {rest = rest} d t) l h =
    elim (Bool-cases (ltb (length out) (printf_buffer_size - 1))) [
      | inr e ↦ (out, stops fuel out args b'%' s e, h)
      | inl e ↦
          rw
            (converts fuel out args e s rest b'%' (out ++ b'%' ∷ [], args) d
              (put_percent (directive s).0 args out))
            (loop-Finishes fuel rest args (out ++ b'%' ∷ []) t
              (shorter s rest b'%' fuel d (omega (arith, l))) (Ends-snoc out b'%' (room_of out e)))
    ]
loop-Finishes (suc fuel) _ _ out
      (conversion {format = s} {rest = rest} {args = args} {d = c} {k = k} {arg = arg} d i f t) l
      h =
    elim (Bool-cases (ltb (length out) (printf_buffer_size - 1))) [
      | inr e ↦ (out, stops fuel out (arg ∷ args) b'%' s e, h)
      | inl e ↦
          let (u, p, q) = put_arg-Fits (directive s).0 k arg out f (room_of out e) in
          rw
            (converts fuel out (arg ∷ args) e s rest c (u, args) d
              (put_conversion (directive s).0 c k arg args out u i p))
            (loop-Finishes fuel rest args u t (shorter s rest c fuel d (omega (arith, l))) q)
    ]

-- A call of `kprintf` whose arguments fit its format comes to an end, is defined throughout, and leaves
-- room for the NUL in the buffer, however long the texts are that it is given.
pub kprintf-Typed :
    (format : List ℕ) (args : List Arg) → Typed format args → Finishes (kprintf format args)
unfolding kprintf
kprintf-Typed format args t =
    loop-Finishes (length format + 1) format args [] t (omega arith) (omega arith)
