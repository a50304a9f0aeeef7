-- ===== src/Text.antt =====
-- lib/string.c on C strings: a string is the list of its bytes before the terminating NUL. A pointer
-- into a string is the list of the bytes from there on.
pub mod Buffer
pub mod Laws
mod Tests
pub mod Tokens
use solace_os.Base.{
  ℕ, zero, suc, ◌+◌, ◌-◌, ◌≡◌, Bool, true, false, not, Option, none, some, List, [], ◌∷◌, ◌++◌,
  ◌==◌, if◌then◌else◌,
}

-- What `strcmp` returns, an `int`: the difference of two bytes, by its sign.
pub data Difference : Type 0 where
  below : ℕ → Difference
  same : Difference
  above : ℕ → Difference

-- `*(unsigned char *)s1 - *(unsigned char *)s2`
unfoldable pub difference : ℕ → ℕ → Difference
difference a b =
    if a == b then same else if solace_os.Base.ltb a b then below (b - a) else above (a - b)

-- The byte that a pointer points to: 0 at the end of the string.
unfoldable pub first_byte : List ℕ → ℕ
first_byte [] = 0
first_byte (c ∷ s) = c

unfoldable pub strlen : List ℕ → ℕ
strlen [] = 0
strlen (c ∷ s) = strlen s + 1

unfoldable pub strcmp : List ℕ → List ℕ → Difference
unfolding first_byte
strcmp [] t = difference 0 (first_byte t)
strcmp (c ∷ s) [] = difference c 0
strcmp (c ∷ s) (d ∷ t) = let rest = strcmp s t in if c == d then rest else difference c d

unfoldable pub strncmp : List ℕ → List ℕ → ℕ → Difference
unfolding first_byte
strncmp s t zero = same
strncmp [] t (suc n) = difference 0 (first_byte t)
strncmp (c ∷ s) [] (suc n) = difference c 0
strncmp (c ∷ s) (d ∷ t) (suc n) =
    let rest = strncmp s t n in if c == d then rest else difference c d

-- The inner loops of `strspn` and `strpbrk`: whether `c` is among the bytes of the string.
unfoldable pub contains : ℕ → List ℕ → Bool
contains c [] = false
contains c (a ∷ accept) = if c == a then true else contains c accept

unfoldable pub strspn : List ℕ → List ℕ → ℕ
unfolding contains
strspn [] accept = 0
strspn (c ∷ s) accept =
    let rest = strspn s accept in if not (contains c accept) then 0 else suc rest

-- The part of the string from the first rejected byte on; `none` is NULL.
unfoldable pub strpbrk : List ℕ → List ℕ → Option (List ℕ)
unfolding contains
strpbrk [] reject = none
strpbrk (c ∷ s) reject =
    let rest = strpbrk s reject in if contains c reject then some (c ∷ s) else rest

-- `s + n`
unfoldable pub advance : ℕ → List ℕ → List ℕ
advance zero s = s
advance (suc n) [] = []
advance (suc n) (c ∷ s) = advance n s

-- The first `n` bytes.
unfoldable pub prefix_of : ℕ → List ℕ → List ℕ
prefix_of zero s = []
prefix_of (suc n) [] = []
prefix_of (suc n) (c ∷ s) = c ∷ prefix_of n s

-- The end of `strtok`, behind the leading delimiters: the token and what `strtok_last` becomes. The
-- NUL written over the delimiter ends the token there.
unfoldable pub strtok_token : List ℕ → List ℕ → Option (List ℕ) × Option (List ℕ)
unfolding advance prefix_of
strtok_token [] delim = (none, none)
strtok_token (c ∷ s) delim = elim (strpbrk (c ∷ s) delim) [
  | none ↦ (some (c ∷ s), none)
  | some rest ↦ (some (prefix_of (strlen (c ∷ s) - strlen rest) (c ∷ s)), some (advance 1 rest))
]

unfoldable pub strtok_skip : List ℕ → List ℕ → Option (List ℕ) × Option (List ℕ)
unfolding strtok_token
strtok_skip s delim = strtok_token (advance (strspn s delim) s) delim

-- `strtok(str, delim)` at a value of `strtok_last`: the token and the new value.
unfoldable pub strtok :
    Option (List ℕ) → List ℕ → Option (List ℕ) → Option (List ℕ) × Option (List ℕ)
unfolding strtok_skip
strtok (some s) delim last = strtok_skip s delim
strtok none delim none = (none, none)
strtok none delim (some s) = strtok_skip s delim
