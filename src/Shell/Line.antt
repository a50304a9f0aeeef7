-- ===== src/Shell/Line.antt =====
-- The command line of shell/shell.c: reading it, and taking it apart.
use solace_os.Base.{
  ℕ, zero, suc, ◌+◌, ◌-◌, ◌≤◌, ◌<◌, ◌≡◌, refl, sym, ap, ◌∙◌, inl, inr, true, false, ◌&&◌, ◌||◌,
  Option, none, some, List, [], ◌∷◌, ◌++◌, arith, ltb, leb, ◌==◌, if◌then◌else◌, length, Bool-cases,
}
use solace_os.Text.{strtok}
use solace_os.Text.Tokens.{words, rest_words, result_words, strtok-words}

abbrev pub max_cmd_len : ℕ
max_cmd_len = 128

abbrev pub max_args : ℕ
max_args = 10

abbrev pub space : List ℕ
space = 32 ∷ []

-- What a line without its last byte is: the backspace.
unfoldable pub drop_last : List ℕ → List ℕ
drop_last [] = []
drop_last (c ∷ []) = []
drop_last (c ∷ d ∷ s) = c ∷ drop_last (d ∷ s)

-- What one byte does to the line that has been read, where there is room: `none` is the end of the
-- line. `kgetc_blocking` has turned CR into LF.
unfoldable pub read_byte : ℕ → List ℕ → Option (List ℕ)
unfolding drop_last
read_byte c line =
    if (c == 13) || (c == 10)
    then none
    else if (c == 8) || (c == 127)
    then some (drop_last line)
    else if leb 32 c && leb c 126
    then some (line ++ c ∷ [])
    else some line

-- The loop that reads a line from what `kgetc_blocking` returns: the line and the bytes that are
-- left. It stops at a newline, or when the buffer is full; `none` if it still waits for a byte.
unfoldable pub read_line : List ℕ → List ℕ → Option (List ℕ × List ℕ)
unfolding read_byte
read_line [] line = if ltb (length line) (max_cmd_len - 1) then none else some (line, [])
read_line (c ∷ input) line = elim (ltb (length line) (max_cmd_len - 1)) [
  | false ↦ some (line, c ∷ input)
  | true ↦ elim (read_byte c line) [
    | none ↦ some (line, input)
    | some line' ↦ read_line input line'
  ]
]

-- The loop over `strtok`: at most `n` arguments, from a token and the value of `strtok_last`.
unfoldable pub read_args : ℕ → Option (List ℕ) × Option (List ℕ) → List (List ℕ)
read_args zero r = []
read_args (suc n) (none, last) = []
read_args (suc n) (some token, last) = token ∷ read_args n (strtok none space last)

-- `argv`, from the line; the second argument is the value of `strtok_last` before.
unfoldable pub parse_args : List ℕ → Option (List ℕ) → List (List ℕ)
unfolding read_args
parse_args line last = read_args max_args (strtok (some line) space last)

pub take {ℓ} : {A : Type ℓ} → ℕ → List A → List A
take zero xs = []
take (suc n) [] = []
take (suc n) (x ∷ xs) = x ∷ take n xs

read_args-words :
    (n : ℕ) (r : Option (List ℕ) × Option (List ℕ)) → read_args n r ≡ take n (result_words space r)
unfolding read_args take result_words
read_args-words zero r = refl
read_args-words (suc n) (none, last) = refl
read_args-words (suc n) (some token, last) =
    ap (λ ws. token ∷ ws)
      (read_args-words n (strtok none space last)
        ∙ ap (take n) (sym (strtok-words space none last)))

-- The arguments are the first ten words of the line, whatever `strtok_last` was before.
pub parse_args-words :
    (line : List ℕ) (last : Option (List ℕ))
    → parse_args line last ≡ take max_args (words space [] line)
unfolding parse_args rest_words
parse_args-words line last =
    read_args-words max_args (strtok (some line) space last)
    ∙ ap (take max_args) (sym (strtok-words space (some line) last))

-- A line that fits the buffer with its NUL, of printable bytes only.
abbrev pub IsPrintable : List ℕ → Type 0
IsPrintable [] = Unit {0}
IsPrintable (c ∷ s) = (32 ≤ c) × (c ≤ 126) × IsPrintable s

pub record IsLine (line : List ℕ) : Type 0 where
  pub short : length line < max_cmd_len
  pub printable : IsPrintable line

drop_last-IsLine :
    (line : List ℕ)
    → IsPrintable line
    → IsPrintable (drop_last line) × (length (drop_last line) ≤ length line)
unfolding drop_last
drop_last-IsLine [] p = (tt, omega arith)
drop_last-IsLine (c ∷ []) p = (tt, omega arith)
drop_last-IsLine (c ∷ d ∷ s) p =
    let (q, l) = drop_last-IsLine (d ∷ s) p.2 in ((p.0, p.1, q), omega arith)

append-IsPrintable :
    (line : List ℕ) (c : ℕ)
    → IsPrintable line
    → 32 ≤ c
    → c ≤ 126
    → IsPrintable (line ++ c ∷ []) × (length (line ++ c ∷ []) ≡ length line + 1)
append-IsPrintable [] c p a b = ((a, b, tt), omega arith)
append-IsPrintable (d ∷ line) c p a b =
    let (q, l) = append-IsPrintable line c p.2 a b in ((p.0, p.1, q), omega arith)

abbrev pub GoodByte : Option (List ℕ) → Type 0
GoodByte none = Unit {0}
GoodByte (some line) = IsLine line

abbrev pub GoodLine : Option (List ℕ × List ℕ) → Type 0
GoodLine none = Unit {0}
GoodLine (some (line, rest)) = IsLine line

read_byte-IsLine :
    (c : ℕ) (line : List ℕ)
    → IsPrintable line
    → length line < max_cmd_len - 1
    → GoodByte (read_byte c line)
unfolding read_byte
read_byte-IsLine c line p l = elim (Bool-cases ((c == 13) || (c == 10))) [
  | inl e ↦ rw e tt
  | inr e ↦ rw e (elim (Bool-cases ((c == 8) || (c == 127))) [
    | inl f ↦
        rw f (
          let (q, k) = drop_last-IsLine line p in
          record { short = omega (arith, k); printable = q })
    | inr f ↦ rw f (elim (Bool-cases (leb 32 c && leb c 126)) [
      | inl g ↦ rw g (
          let (q, k) = append-IsPrintable line c p (ground (arith, g)) (ground (arith, g)) in
          record { short = omega (arith, k); printable = q })
      | inr g ↦ rw g (record { short = omega arith; printable = p })
    ])
  ])
]

-- Whatever comes in, from a line that fits the buffer with its NUL and holds printable bytes only, the
-- line that the shell reads is such a line again.
pub read_line-IsLine : (input line : List ℕ) → IsLine line → GoodLine (read_line input line)
unfolding read_line
read_line-IsLine [] line v = elim (Bool-cases (ltb (length line) (max_cmd_len - 1))) [
  | inl e ↦ rw e tt
  | inr e ↦ rw e v
]
read_line-IsLine (c ∷ input) line v = elim (Bool-cases (ltb (length line) (max_cmd_len - 1))) [
  | inl e ↦
      rw (e, read_line)
        (go (λ l w. read_line-IsLine input l w) (read_byte c line)
          (read_byte-IsLine c line v.printable (ground (arith, e))))
  | inr e ↦ rw (e, read_line) v
]
  where
    go :
        ((l : List ℕ) → IsLine l → GoodLine (read_line input l))
        → (o : Option (List ℕ)) → GoodByte o
        → GoodLine (elim o [ none ↦ some (line, input) | some line' ↦ read_line input line' ])
    go next none u = v
    go next (some line') u = next line' u
