-- ===== src/Console/Check.antt =====
-- A test that the arguments of a call of `kprintf` fit its format.
use solace_os.Base.{
  ◌&&◌, ◌++◌, ℕ, zero, suc, ◌+◌, ◌≡◌, refl, ap, ◌∙◌, inl, inr, Bool, true, false, Option, none,
  some, List, [], ◌∷◌, ◌==◌, length, arith, Bool-cases, ==-eq, ==-ne,
}
use solace_os.Console.{
  Arg, word, text, Call, Specifier, character, string, signed, unsigned, hex, hex_upper, pointer,
  specifier, directive, kprintf,
}
use solace_os.Console.Buffer.{HasKind}
use solace_os.Console.Typed.{Typed, nothing, ordinary, percent, conversion, Finishes, kprintf-Typed}

has_kind : Specifier → Arg → Bool
has_kind string (text s) = true
has_kind string (word w) = false
has_kind _ (word w) = true
has_kind _ (text s) = false

has_kind-HasKind : (k : Specifier) (a : Arg) → has_kind k a ≡ true → HasKind k a
unfolding has_kind
has_kind-HasKind character (word w) e = tt
has_kind-HasKind string (text s) e = tt
has_kind-HasKind signed (word w) e = tt
has_kind-HasKind unsigned (word w) e = tt
has_kind-HasKind hex (word w) e = tt
has_kind-HasKind hex_upper (word w) e = tt
has_kind-HasKind pointer (word w) e = tt
has_kind-HasKind string (word w) e = cc
has_kind-HasKind character (text s) e = cc
has_kind-HasKind signed (text s) e = cc
has_kind-HasKind unsigned (text s) e = cc
has_kind-HasKind hex (text s) e = cc
has_kind-HasKind hex_upper (text s) e = cc
has_kind-HasKind pointer (text s) e = cc

-- The switch of a directive, with the check of what comes behind it.
typed_at : (List Arg → Bool) → Option Specifier → Bool → List Arg → Bool
unfolding has_kind
typed_at next none true args = next args
typed_at next none false args = false
typed_at next (some k) is_percent [] = false
typed_at next (some k) is_percent (arg ∷ args) = elim (has_kind k arg) [
  | true ↦ next args
  | false ↦ false
]

typed_switch : (List ℕ → List Arg → Bool) → List ℕ → List Arg → Bool
unfolding typed_at
typed_switch next [] args = false
typed_switch next (d ∷ rest) args = typed_at (next rest) (specifier d) (d == b'%') args

-- `fuel` bounds the length of the format.
unfoldable pub is_typed : ℕ → List ℕ → List Arg → Bool
unfolding typed_switch
is_typed zero format args = false
is_typed (suc fuel) [] args = true
is_typed (suc fuel) (c ∷ s) args = elim (c == b'%') [
  | false ↦ is_typed fuel s args
  | true ↦ typed_switch (is_typed fuel) (directive s).1 args
]

module _ (s rest : List ℕ) (d : ℕ) (e : (directive s).1 ≡ d ∷ rest) (next : List Arg → Bool)
    (sound : (args : List Arg) → next args ≡ true → Typed rest args) where
  typed_at-Typed :
      (o : Option Specifier) (b : Bool) (args : List Arg)
      → specifier d ≡ o
      → (d == b'%') ≡ b
      → typed_at next o b args ≡ true
      → Typed (b'%' ∷ s) args
  unfolding typed_at
  typed_at-Typed none true args o p h =
      percent (e ∙ ap (λ x. x ∷ rest) (==-eq d b'%' p)) (sound args h)
  typed_at-Typed none false args o p h = cc
  typed_at-Typed (some k) b [] o p h = cc
  typed_at-Typed (some k) b (arg ∷ args) o p h = elim (Bool-cases (has_kind k arg)) [
    | inl q ↦ conversion e o (has_kind-HasKind k arg q) (sound args (rw (typed_at, q) at h))
    | inr q ↦ let bad : false ≡ true = rw (typed_at, q) at h in cc
  ]

typed_switch-Typed :
    (s : List ℕ) (next : List ℕ → List Arg → Bool)
    (sound : (rest : List ℕ) (args : List Arg) → next rest args ≡ true → Typed rest args)
    (r : List ℕ) (args : List Arg)
    → (directive s).1 ≡ r
    → typed_switch next r args ≡ true
    → Typed (b'%' ∷ s) args
unfolding typed_switch
typed_switch-Typed s next sound [] args e h = cc
typed_switch-Typed s next sound (d ∷ rest) args e h =
    typed_at-Typed s rest d e (next rest) (sound rest) (specifier d) (d == b'%') args refl refl h

is_typed-Typed :
    (fuel : ℕ) (format : List ℕ) (args : List Arg)
    → is_typed fuel format args ≡ true
    → Typed format args
unfolding is_typed
is_typed-Typed zero format args e = cc
is_typed-Typed (suc fuel) [] args e = nothing
is_typed-Typed (suc fuel) (c ∷ s) args e = elim (Bool-cases (c == b'%')) [
  | inr n ↦ ordinary (==-ne c b'%' n) (is_typed-Typed fuel s args (rw (is_typed, n) at e))
  | inl n ↦ rw (==-eq c b'%' n) (
      typed_switch-Typed s (is_typed fuel) (λ r a. is_typed-Typed fuel r a) (directive s).1 args
        refl (rw (is_typed, n) at e))
]

-- A call that passes the check comes to an end, and leaves room for the NUL.
pub kprintf-checked :
    (format : List ℕ) (args : List Arg)
    → is_typed (length format + 1) format args ≡ true
    → Finishes (kprintf format args)
kprintf-checked format args e =
    kprintf-Typed format args (is_typed-Typed (length format + 1) format args e)

-- Each call comes to an end and leaves room for the NUL in the buffer.
abbrev pub AllFinish : List Call → Type 0
AllFinish [] = Unit {0}
AllFinish (c ∷ calls) = Finishes (kprintf c.format c.args) × AllFinish calls

unfoldable pub all_typed : List Call → Bool
unfolding is_typed
all_typed [] = true
all_typed (c ∷ calls) = is_typed (length c.format + 1) c.format c.args && all_typed calls

pub all_typed-AllFinish : (calls : List Call) → all_typed calls ≡ true → AllFinish calls
unfolding all_typed
all_typed-AllFinish [] e = tt
all_typed-AllFinish (c ∷ calls) e =
    (kprintf-checked c.format c.args (ground arith), all_typed-AllFinish calls (ground arith))

pub all_typed-nil : all_typed [] ≡ true
unfolding all_typed
all_typed-nil = refl

pub all_typed-append :
    (xs ys : List Call) → all_typed xs ≡ true → all_typed ys ≡ true → all_typed (xs ++ ys) ≡ true
unfolding all_typed
all_typed-append [] ys p q = q
all_typed-append (x ∷ xs) ys p q = ground (arith, all_typed-append xs ys (ground (arith, p)) q, p)

pub all_typed-cons :
    (c : Call) (cs : List Call)
    → all_typed (c ∷ []) ≡ true
    → all_typed cs ≡ true
    → all_typed (c ∷ cs) ≡ true
all_typed-cons c cs p q = all_typed-append (c ∷ []) cs p q
