-- ===== src/Shell/Messages/Laws.antt =====
-- The messages of `memdump`, `peek` and `poke` fit their formats.
use solace_os.Base.{
  ℕ, zero, suc, ◌+◌, ◌≡◌, refl, inl, inr, Bool, true, false, Option, none, some, List, [], ◌∷◌,
  ◌==◌, if◌then◌else◌, ltb, add64, Bool-cases, Option-cases, codes,
}
use solace_os.Text.{first_byte, advance}
use solace_os.Console.{Call, call, word, skip_flags, skip_width, read_modifier}
use solace_os.Console.Check.{is_typed, all_typed, all_typed-nil, all_typed-cons, all_typed-append}
use solace_os.Shell.Messages.{Trace, finished, cut, rows_within, hex_column, char_column, row, rows}

byte_cell-typed :
    (b : Bool) (w : ℕ)
    → all_typed ((if b then call (codes "%02x ") (word w ∷ []) else call (codes "   ") []) ∷ [])
      ≡ true
unfolding all_typed is_typed skip_flags skip_width read_modifier first_byte advance
byte_cell-typed true w = refl
byte_cell-typed false w = refl

char_cell-typed :
    (b : Bool) (w : ℕ)
    → all_typed ((if b then call (codes "%c") (word w ∷ []) else call (codes " ") []) ∷ []) ≡ true
unfolding all_typed is_typed skip_flags skip_width read_modifier first_byte advance
char_cell-typed true w = refl
char_cell-typed false w = refl

gap-typed : (b : Bool) → all_typed (if b then call (codes " ") [] ∷ [] else []) ≡ true
unfolding all_typed is_typed skip_flags skip_width read_modifier first_byte advance
gap-typed true = refl
gap-typed false = refl

offset-typed : (w : ℕ) → all_typed (call (codes "%016llx: ") (word w ∷ []) ∷ []) ≡ true
unfolding all_typed is_typed skip_flags skip_width read_modifier first_byte advance
offset-typed w = refl

bar-typed :
    (all_typed (call (codes " |") [] ∷ []) ≡ true) × (all_typed (call (codes "|\n") [] ∷ []) ≡ true)
unfolding all_typed is_typed skip_flags skip_width read_modifier first_byte advance
bar-typed = (refl, refl)

module _ (i length addr : ℕ) (ptr : ℕ → ℕ) where
  hex_column-typed : (n j : ℕ) → all_typed (hex_column n j i length addr ptr) ≡ true
  unfolding hex_column
  hex_column-typed zero j = all_typed-nil
  hex_column-typed (suc n) j =
      all_typed-cons _ _ (byte_cell-typed (ltb (add64 i j) length) _)
        (all_typed-append _ _ (gap-typed (j == 7)) (hex_column-typed n (j + 1)))

  char_column-typed : (n j : ℕ) → all_typed (char_column n j i length addr ptr) ≡ true
  unfolding char_column
  char_column-typed zero j = all_typed-nil
  char_column-typed (suc n) j =
      all_typed-cons _ _ (char_cell-typed (ltb (add64 i j) length) _) (char_column-typed n (j + 1))

  row-typed : all_typed (row i length addr ptr) ≡ true
  unfolding row
  row-typed = all_typed-cons _ _ (offset-typed (add64 addr i)) (
      all_typed-append _ _ (hex_column-typed 16 0) (
        all_typed-cons _ _ bar-typed.0 (all_typed-append _ _ (char_column-typed 16 0) bar-typed.1)))

-- The calls, if there are any, are typed.
abbrev pub AllTyped : Option (List Call) → Type 0
AllTyped none = Unit {0}
AllTyped (some calls) = all_typed calls ≡ true

pub rows-AllTyped :
    (length addr : ℕ) (ptr : ℕ → ℕ) (fuel i : ℕ) → AllTyped (rows fuel i length addr ptr)
unfolding rows
rows-AllTyped length addr ptr zero i = tt
rows-AllTyped length addr ptr (suc fuel) i = elim (Bool-cases (ltb i length)) [
  | inr e ↦ rw e all_typed-nil
  | inl e ↦ elim (Option-cases (rows fuel (add64 i 16) length addr ptr)) [
    | inl f ↦ rw (e, f) tt
    | inr (calls, f) ↦
        let k : AllTyped (some calls) = rw f at (rows-AllTyped length addr ptr fuel (add64 i 16)) in
        rw (e, f) (all_typed-append (row i length addr ptr) calls (row-typed i length addr ptr) k)
  ]
]

-- The calls of a trace are typed, whether it is cut or not.
abbrev pub TypedTrace : Trace → Type 0
TypedTrace (finished calls) = all_typed calls ≡ true
TypedTrace (cut calls) = all_typed calls ≡ true

pub rows_within-typed :
    (length addr : ℕ) (ptr : ℕ → ℕ) (fuel i : ℕ)
    → all_typed (rows_within fuel i length addr ptr) ≡ true
unfolding rows_within
rows_within-typed length addr ptr zero i = all_typed-nil
rows_within-typed length addr ptr (suc fuel) i = elim (Bool-cases (ltb i length)) [
  | inr e ↦ rw e all_typed-nil
  | inl e ↦ rw e (
      all_typed-append (row i length addr ptr) (rows_within fuel (add64 i 16) length addr ptr)
        (row-typed i length addr ptr) (rows_within-typed length addr ptr fuel (add64 i 16)))
]
