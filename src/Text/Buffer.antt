-- ===== src/Text/Buffer.antt =====
-- `strtok` of lib/string.c on the memory that holds the string, with the NUL that it writes there. Pointers
-- are addresses, and NULL is `none`.
pub mod Laws
use solace_os.Base.{
  ℕ, zero, suc, ◌+◌, ◌-◌, Option, none, some, List, [], ◌∷◌, ◌==◌, if◌then◌else◌, update,
}
use solace_os.Text.{strlen, strspn, strpbrk, advance}

-- The string at `a`, of which at most `n` bytes are read; `none` if there is no NUL among them.
unfoldable pub c_string : ℕ → ℕ → (ℕ → ℕ) → Option (List ℕ)
c_string zero a s = none
c_string (suc n) a s =
    let rest = c_string n (a + 1) s in
    if s a == 0 then some [] else elim rest [ none ↦ none | some t ↦ some (s a ∷ t) ]

-- The end of `strtok`, with `str` behind the leading delimiters, where the bytes stand that are given: the
-- token, the value of `strtok_last`, and memory.
unfoldable pub strtok_end : ℕ → List ℕ → List ℕ → (ℕ → ℕ) → Option ℕ × Option ℕ × (ℕ → ℕ)
strtok_end str [] delim mem = (none, none, mem)
strtok_end str (c ∷ s) delim mem = elim (strpbrk (c ∷ s) delim) [
  | none ↦ (some str, none, mem)
  | some rest ↦
      let stop = str + (strlen (c ∷ s) - strlen rest) in
      (some str, some (stop + 1), update stop 0 mem)
]

unfoldable pub strtok_from : ℕ → ℕ → List ℕ → (ℕ → ℕ) → Option (Option ℕ × Option ℕ × (ℕ → ℕ))
unfolding c_string strtok_end
strtok_from n str delim mem = elim (c_string n str mem) [
  | none ↦ none
  | some s ↦ some (strtok_end (str + strspn s delim) (advance (strspn s delim) s) delim mem)
]

-- `strtok(str, delim)` at a value of `strtok_last`, for strings of less than `n` bytes.
unfoldable pub strtok_at :
    ℕ → Option ℕ → List ℕ → Option ℕ → (ℕ → ℕ) → Option (Option ℕ × Option ℕ × (ℕ → ℕ))
unfolding strtok_from
strtok_at n (some str) delim last mem = strtok_from n str delim mem
strtok_at n none delim none mem = some (none, none, mem)
strtok_at n none delim (some str) mem = strtok_from n str delim mem
