-- ===== src/Shell/Loop.antt =====
-- `shell_loop`: line after line.
use solace_os.Base.{
  ℕ, zero, suc, ◌-◌, ◌≤◌, ◌<◌, ◌≡◌, ◌≢◌, refl, inl, inr, Option, none, some, List, [], ◌∷◌, ◌++◌,
  length, ltb, arith, Bool-cases, Option-cases,
}
use solace_os.Heap.{Kheap}
use solace_os.Shell.Line.{max_cmd_len, read_byte, read_line, parse_args}
use solace_os.Shell.Dispatch.{Outcome, idle, exited, helped, unknown_command, replied, run_command}

-- How far the loop has come, with what each line did: it has left the loop, with the bytes that are left;
-- it waits for a byte; a search of `kmalloc` or the rows of `memdump` have run out of fuel; or all rounds
-- have been used.
pub data Session : Type 0 where
  left : List Outcome → List ℕ → Kheap → Session
  waiting : List Outcome → Kheap → Session
  endless_search out_of_rounds : Session

-- What a line does: `exit` leaves the loop.
unfoldable pub run_line :
    (Kheap → List Outcome → Session) → List ℕ → List Outcome → Option (Outcome × Kheap) → Session
run_line next rest done none = endless_search
run_line next rest done (some (exited, h)) = left (done ++ exited ∷ []) rest h
run_line next rest done (some (o, h)) = next h (done ++ o ∷ [])

-- `rounds` rounds of the loop, with `fuel` for each search of `kmalloc` and for the rows
-- of each `memdump`. `last` is the value of
-- `strtok_last` before a line is taken apart, on which nothing depends.
unfoldable pub shell_loop : ℕ → ℕ → Option (List ℕ) → List ℕ → Kheap → List Outcome → Session
unfolding run_line
shell_loop zero fuel last input h done = out_of_rounds
shell_loop (suc rounds) fuel last input h done = elim (read_line input []) [
  | none ↦ waiting done h
  | some (line, rest) ↦ elim line [
    | [] ↦ shell_loop rounds fuel last rest h done
    | c ∷ cs ↦
        run_line (λ h' done'. shell_loop rounds fuel last rest h' done') rest done
          (run_command fuel (parse_args (c ∷ cs) last) h)
  ]
]

abbrev Shorter : ℕ → Option (List ℕ × List ℕ) → Type 0
Shorter n none = Unit {0}
Shorter n (some (line, rest)) = length rest ≤ n

Shorter-more : (n m : ℕ) (o : Option (List ℕ × List ℕ)) → n ≤ m → Shorter n o → Shorter m o
Shorter-more n m none l s = tt
Shorter-more n m (some (line, rest)) l s = omega (arith, l, s)

-- What is left of the input is no longer than it.
read_line-Shorter : (input line : List ℕ) → Shorter (length input) (read_line input line)
unfolding read_line
read_line-Shorter [] line = elim (Bool-cases (ltb (length line) (max_cmd_len - 1))) [
  | inl e ↦ rw e tt
  | inr e ↦ rw e (omega arith)
]
read_line-Shorter (c ∷ input) line = elim (Bool-cases (ltb (length line) (max_cmd_len - 1))) [
  | inl e ↦ elim (Option-cases (read_byte c line)) [
    | inl f ↦ rw (read_line, e, f) (omega arith)
    | inr (line', f) ↦
        rw (read_line, e, f)
          (Shorter-more (length input) _ (read_line input line') (omega arith)
            (read_line-Shorter input line'))
  ]
  | inr e ↦ rw (read_line, e) (omega arith)
]

-- From an empty buffer at least one byte is read.
abbrev StrictlyShorter : ℕ → Option (List ℕ × List ℕ) → Type 0
StrictlyShorter n none = Unit {0}
StrictlyShorter n (some (line, rest)) = length rest < n

Shorter-StrictlyShorter :
    (n : ℕ) (o : Option (List ℕ × List ℕ)) → Shorter n o → StrictlyShorter (suc n) o
Shorter-StrictlyShorter n none s = tt
Shorter-StrictlyShorter n (some (line, rest)) s = omega (arith, s)

read_line-StrictlyShorter : (input : List ℕ) → StrictlyShorter (length input) (read_line input [])
unfolding read_line
read_line-StrictlyShorter [] = tt
read_line-StrictlyShorter (c ∷ input) = elim (Option-cases (read_byte c [])) [
  | inl f ↦ rw (read_line, f) (omega arith)
  | inr (line', f) ↦
      rw (read_line, f)
        (Shorter-StrictlyShorter (length input) (read_line input line')
          (read_line-Shorter input line'))
]

run_line-ne :
    (next : Kheap → List Outcome → Session) (rest : List ℕ) (done : List Outcome)
    → ((h : Kheap) (d : List Outcome) → next h d ≢ out_of_rounds)
    → (o : Option (Outcome × Kheap)) → run_line next rest done o ≢ out_of_rounds
unfolding run_line
run_line-ne next rest done n none = λ e. cc
run_line-ne next rest done n (some (exited, h)) = λ e. cc
run_line-ne next rest done n (some (idle, h)) = n h _
run_line-ne next rest done n (some (helped, h)) = n h _
run_line-ne next rest done n (some (unknown_command, h)) = n h _
run_line-ne next rest done n (some (replied r, h)) = n h _

module _ (rounds fuel : ℕ) (last : Option (List ℕ)) (input rest : List ℕ) (h : Kheap)
    (done : List Outcome) where
  pub no_line :
      read_line input [] ≡ none → shell_loop (suc rounds) fuel last input h done ≡ waiting done h
  unfolding shell_loop
  no_line e = rw (shell_loop, e) refl

  pub empty_line :
      read_line input [] ≡ some ([], rest)
      → shell_loop (suc rounds) fuel last input h done ≡ shell_loop rounds fuel last rest h done
  unfolding shell_loop
  empty_line e = rw (shell_loop, e) refl

  pub full_line :
      (c : ℕ) (cs : List ℕ)
      → read_line input [] ≡ some (c ∷ cs, rest)
      → shell_loop (suc rounds) fuel last input h done
        ≡ run_line
            (λ h' done'. shell_loop rounds fuel last rest h' done')
            rest
            done
            (run_command fuel (parse_args (c ∷ cs) last) h)
  unfolding shell_loop
  full_line c cs e = rw (shell_loop, e) refl

  some_line :
      (line : List ℕ)
      → read_line input [] ≡ some (line, rest)
      → ((h' : Kheap) (d : List Outcome) → shell_loop rounds fuel last rest h' d ≢ out_of_rounds)
      → shell_loop (suc rounds) fuel last input h done ≢ out_of_rounds
  some_line [] e n = rw (empty_line e) (n h done)
  some_line (c ∷ cs) e n =
      rw (full_line c cs e)
        (run_line-ne _ rest done n (run_command fuel (parse_args (c ∷ cs) last) h))

-- With one round more than there are bytes of input the loop never runs out of rounds: it leaves, waits
-- for a byte, or hangs in a search of `kmalloc` or in a `memdump` that does not end within `fuel`.
pub shell_loop-ends :
    (rounds fuel : ℕ) (last : Option (List ℕ)) (input : List ℕ) (h : Kheap) (done : List Outcome)
    → length input < rounds
    → shell_loop rounds fuel last input h done ≢ out_of_rounds
shell_loop-ends zero fuel last input h done l = absurd (omega (arith, l))
shell_loop-ends (suc rounds) fuel last input h done l = elim (Option-cases (read_line input [])) [
  | inl e ↦ rw (no_line rounds fuel last input [] h done e) (λ f. cc)
  | inr ((line, rest), e) ↦
      let shorter : length rest < length input = rw e at (read_line-StrictlyShorter input) in
      some_line rounds fuel last input rest h done line e
        (λ h' d. shell_loop-ends rounds fuel last rest h' d (omega (arith, shorter, l)))
]
