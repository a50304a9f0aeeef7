-- ===== src/Shell/Messages/Dump.antt =====
-- The bytes that the rows of `memdump` show.
use solace_os.Base.{
  ℕ, zero, suc, ◌+◌, ◌-◌, ◌*◌, ◌/◌, ◌%◌, ◌≤◌, ◌<◌, ◌≡◌, refl, sym, ap, ◌∙◌, inl, inr, Bool, true,
  false, some, List, [], ◌∷◌, ◌++◌, ◌==◌, if◌then◌else◌, ltb, leb, add64, u64_mod, arith,
  Bool-cases, codes,
}
use mathlib.Core.List.{append_assoc, append-nil}
use solace_os.Text.{strcmp, difference}
use solace_os.Console.{Arg, Call, call, word, text}
use solace_os.Shell.Commands.{dump}
use solace_os.Shell.Dispatch.{is_same}
use solace_os.Shell.Messages.{printable, hex_column, char_column, row, rows}
use solace_os.Shell.Messages.Rows.{rows-more, rows-end, no-wrap}

-- The bytes that calls print in hexadecimal.
abbrev is_hex : Call → Bool
is_hex c = is_same (strcmp c.format (codes "%02x "))

abbrev words_of : List Arg → List ℕ
words_of [] = []
words_of (word w ∷ args) = w ∷ words_of args
words_of (text t ∷ args) = words_of args

unfoldable pub shown : List Call → List ℕ
shown [] = []
shown (c ∷ cs) = (if is_hex c then words_of c.args else []) ++ shown cs

shown-append : (xs ys : List Call) → shown (xs ++ ys) ≡ shown xs ++ shown ys
unfolding shown
shown-append [] ys = refl
shown-append (x ∷ xs) ys = rw (shown-append xs ys) (sym (append_assoc _ (shown xs) (shown ys)))

shown-cell :
    (b : Bool) (w : ℕ)
    → shown ((if b then call (codes "%02x ") (word w ∷ []) else call (codes "   ") []) ∷ [])
      ≡ (if b then w ∷ [] else [])
unfolding shown strcmp difference
shown-cell true w = refl
shown-cell false w = refl

shown-gap : (b : Bool) → shown (if b then call (codes " ") [] ∷ [] else []) ≡ []
unfolding shown strcmp difference
shown-gap true = refl
shown-gap false = refl

shown-char :
    (b : Bool) (w : ℕ)
    → shown ((if b then call (codes "%c") (word w ∷ []) else call (codes " ") []) ∷ []) ≡ []
unfolding shown strcmp difference
shown-char true w = refl
shown-char false w = refl

dump-next :
    (m n a b : ℕ) (ptr : ℕ → ℕ) → m ≡ suc n → b ≡ a + 1 → dump m a ptr ≡ ptr a ∷ dump n b ptr
dump-next m n a b ptr e f =
    ap (λ k. dump k a ptr) e ∙ unfold dump in ap (λ x. ptr a ∷ dump n x ptr) (sym f)

dump-nothing : (m a : ℕ) (ptr : ℕ → ℕ) → m ≡ 0 → dump m a ptr ≡ []
dump-nothing m a ptr e = ap (λ k. dump k a ptr) e ∙ unfold dump in refl

dump-append :
    (n m k a b : ℕ) (ptr : ℕ → ℕ)
    → k ≡ n + m
    → b ≡ a + n
    → dump k a ptr ≡ dump n a ptr ++ dump m b ptr
dump-append zero m k a b ptr e f =
    ap (λ x. dump x a ptr) (omega (arith, e))
    ∙ ap (λ x. dump m x ptr) (omega (arith, f))
    ∙ ap (λ l. l ++ dump m b ptr) (sym (dump-nothing 0 a ptr refl))
dump-append (suc n) m k a b ptr e f =
    dump-next k (n + m) a (a + 1) ptr (omega (arith, e)) refl
    ∙ ap (λ l. ptr a ∷ l) (dump-append n m (n + m) (a + 1) b ptr refl (omega (arith, f)))
    ∙ ap (λ l. l ++ dump m b ptr) (sym (dump-next (suc n) n a (a + 1) ptr refl refl))

abbrev least : ℕ → ℕ → ℕ
least n m = if leb n m then n else m

dump-split :
    (k m a b : ℕ) (ptr : ℕ → ℕ)
    → m ≡ k - 16
    → b ≡ a + 16
    → dump k a ptr ≡ dump (least 16 k) a ptr ++ dump m b ptr
dump-split k m a b ptr e f = elim (Bool-cases (leb 16 k)) [
  | inl l ↦ rw l (dump-append 16 m k a b ptr (ground (arith, e, l)) f)
  | inr l ↦ rw (l, dump-nothing m b ptr (ground (arith, e, l))) (sym (append-nil (dump k a ptr)))
]

-- A length and an address for which nothing wraps.
module _ (length addr : ℕ) (ptr : ℕ → ℕ) (inside : addr + length ≤ u64_mod) where
  hex_column-next :
      (n j i : ℕ)
      → shown (hex_column (suc n) j i length addr ptr)
        ≡ (if ltb (add64 i j) length then ptr ((addr + i + j) % u64_mod) ∷ [] else [])
          ++ shown (hex_column n (j + 1) i length addr ptr)
  unfolding hex_column
  hex_column-next n j i =
      shown-append (cell ∷ []) (gap ++ hex_column n (j + 1) i length addr ptr)
      ∙ rw
          (
            shown-cell (ltb (add64 i j) length) (ptr ((addr + i + j) % u64_mod)),
            shown-append gap (hex_column n (j + 1) i length addr ptr),
            shown-gap (j == 7),
          )
          refl
    where
      cell : Call
      cell =
          if ltb (add64 i j) length
          then call (codes "%02x ") (word (ptr ((addr + i + j) % u64_mod)) ∷ [])
          else call (codes "   ") []

      gap : List Call
      gap = if j == 7 then call (codes " ") [] ∷ [] else []

  hex_column-shown :
      (n j i : ℕ)
      → i + j + n ≤ u64_mod
      → shown (hex_column n j i length addr ptr)
        ≡ dump (least n (length - (i + j))) (addr + i + j) ptr
  hex_column-shown zero j i l =
      unfold hex_column shown in
      sym (dump-nothing (least 0 (length - (i + j))) (addr + i + j) ptr (ground arith))
  hex_column-shown (suc n) j i l = elim (Bool-cases (ltb (add64 i j) length)) [
    | inl e ↦
        let p : i + j < length = ground (arith, e, l) in
        let w : (addr + i + j) % u64_mod ≡ addr + i + j = omega (arith, inside, p) in
        hex_column-next n j i
        ∙ rw (e, w, hex_column-shown n (j + 1) i (omega (arith, l)))
            (sym (
              dump-next (least (suc n) (length - (i + j))) (least n (length - (i + (j + 1))))
                (addr + i + j) (addr + i + (j + 1)) ptr (ground (arith, p)) (omega arith)))
    | inr e ↦
        let p : length ≤ i + j = ground (arith, e, l) in
        hex_column-next n j i
        ∙ rw (e, hex_column-shown n (j + 1) i (omega (arith, l)))
            (dump-nothing (least n (length - (i + (j + 1)))) (addr + i + (j + 1)) ptr
                (ground (arith, p))
              ∙ sym (
                  dump-nothing (least (suc n) (length - (i + j))) (addr + i + j) ptr
                    (ground (arith, p))))
  ]

  char_column-shown : (n j i : ℕ) → shown (char_column n j i length addr ptr) ≡ []
  unfolding char_column
  char_column-shown zero j i = unfold shown in refl
  char_column-shown (suc n) j i =
      shown-append
        ((if ltb (add64 i j) length
            then call (codes "%c") (word (printable (ptr ((addr + i + j) % u64_mod))) ∷ [])
            else call (codes " ") [])
          ∷ [])
        (char_column n (j + 1) i length addr ptr)
      ∙ rw
          (
            shown-char (ltb (add64 i j) length) (printable (ptr ((addr + i + j) % u64_mod))),
            char_column-shown n (j + 1) i,
          )
          refl

  shown-frame :
      (w : ℕ) (cs : List Call)
      → (shown (call (codes "%016llx: ") (word w ∷ []) ∷ cs) ≡ shown cs)
        × (shown (call (codes " |") [] ∷ cs) ≡ shown cs)
        × (shown (call (codes "|\n") [] ∷ []) ≡ [])
  unfolding shown strcmp difference
  shown-frame w cs = (refl, refl, refl)

  row-shown :
      (i : ℕ)
      → i + 16 ≤ u64_mod
      → shown (row i length addr ptr) ≡ dump (least 16 (length - i)) (addr + i) ptr
  unfolding row
  row-shown i l =
      let hex = hex_column 16 0 i length addr ptr in
      let chars = char_column 16 0 i length addr ptr in
      let tail = call (codes " |") [] ∷ chars ++ (call (codes "|\n") [] ∷ []) in
      (shown-frame (add64 addr i) (hex ++ tail)).0
      ∙ shown-append hex tail
      ∙ rw
          (
            hex_column-shown 16 0 i (omega (arith, l)),
            (shown-frame 0 (chars ++ (call (codes "|\n") [] ∷ []))).1,
            shown-append chars (call (codes "|\n") [] ∷ []),
            char_column-shown 16 0 i,
            (shown-frame 0 []).2,
          )
          (append-nil (dump (least 16 (length - (i + 0))) (addr + i + 0) ptr)
            ∙ ap (λ k. dump (least 16 (length - k)) (addr + i + 0) ptr) {x = i + 0} {y = i}
                (omega arith)
            ∙ ap (λ a. dump (least 16 (length - i)) a ptr) (omega arith))

  rows-shown :
      (n i : ℕ)
      → length + 16 ≤ u64_mod
      → length ≤ i + 16 * n
      → (calls : List Call) × (rows (suc n) i length addr ptr ≡ some calls)
        × (shown calls ≡ dump (length - i) (addr + i) ptr)
  rows-shown zero i fits l = (
    [],
    rows-end length addr ptr zero i (omega (arith, l)),
    unfold shown in sym (dump-nothing (length - i) (addr + i) ptr (omega (arith, l))),
  )
  rows-shown (suc n) i fits l = elim (Bool-cases (ltb i length)) [
    | inr e ↦ (
      [],
      rows-end length addr ptr (suc n) i (ground (arith, e)),
      unfold shown in sym (dump-nothing (length - i) (addr + i) ptr (ground (arith, e))),
    )
    | inl e ↦
        let p : i < length = ground (arith, e) in
        let (calls, f, g) = rows-shown n (i + 16) fits (omega (arith, l)) in
        (
          row i length addr ptr ++ calls,
          rows-more length addr ptr (suc n) i calls p (
              ap (λ k. rows (suc n) k length addr ptr)
                (no-wrap length addr ptr i (omega (arith, fits, p)))
              ∙ f),
          shown-append (row i length addr ptr) calls
              ∙ rw (row-shown i (omega (arith, fits, p)), g)
                  (sym (
                    dump-split (length - i) (length - (i + 16)) (addr + i) (addr + (i + 16)) ptr
                      (omega arith) (omega arith))),
        )
  ]

  -- Where neither the address nor the counter wraps, the loop over the rows of `memdump` ends, and the bytes
  -- that its rows print in hexadecimal, in order, are those of the range and no others.
  pub rows-dump :
      length + 16 ≤ u64_mod
      → (fuel : ℕ) × (calls : List Call) × (rows fuel 0 length addr ptr ≡ some calls)
        × (shown calls ≡ dump length addr ptr)
  rows-dump fits =
      let (calls, e, f) = rows-shown (length / 16 + 1) 0 fits (omega arith) in
      (
        suc (length / 16 + 1),
        calls,
        e,
        f
            ∙ ap (λ k. dump k (addr + 0) ptr) (omega arith)
            ∙ ap (λ a. dump length a ptr) (omega arith),
      )
