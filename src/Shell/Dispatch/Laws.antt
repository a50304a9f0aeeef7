-- ===== src/Shell/Dispatch/Laws.antt =====
-- Which words run which commands, and what the commands that only read leave.
use solace_os.Base.{
  ℕ, ◌≡◌, ◌↔◌, refl, inl, inr, true, Option, some, List, [], ◌∷◌, arith, Bool-cases,
}
use solace_os.Heap.{Kheap}
use solace_os.Text.{Difference, below, same, above, strcmp}
use solace_os.Text.Laws.{IsCString, strcmp-same_iff}
use solace_os.Shell.Commands.{length_of_args}
use solace_os.Shell.Commands.Memdump.{Fits}
use solace_os.Shell.Dispatch.{
  Handler, help, memdump, peek, poke, alloc, free, pmm_info, name_of, commands, is_same,
  find_command, Outcome,
}

name-IsCString : (c : Handler) → IsCString (name_of c)
unfolding name_of
name-IsCString help = ground arith
name-IsCString memdump = ground arith
name-IsCString peek = ground arith
name-IsCString poke = ground arith
name-IsCString alloc = ground arith
name-IsCString free = ground arith
name-IsCString pmm_info = ground arith

is_same_iff : (d : Difference) → (is_same d ≡ true) ↔ (d ≡ same)
is_same_iff (below n) = (λ e. cc, λ e. cc)
is_same_iff same = (λ e. refl, λ e. refl)
is_same_iff (above n) = (λ e. cc, λ e. cc)

find_command-name_of : (d : Handler) → find_command (name_of d) commands ≡ some d
unfolding find_command name_of strcmp solace_os.Text.difference
find_command-name_of help = refl
find_command-name_of memdump = refl
find_command-name_of peek = refl
find_command-name_of poke = refl
find_command-name_of alloc = refl
find_command-name_of free = refl
find_command-name_of pmm_info = refl

module _ (word : List ℕ) (clean : IsCString word) where
  found_name : (c : Handler) (cs : List Handler) → find_command word cs ≡ some c → word ≡ name_of c
  unfolding find_command
  found_name c [] e = cc
  found_name c (d ∷ cs) e = elim (Bool-cases (is_same (strcmp word (name_of d)))) [
    | inl t ↦
        let equal : word ≡ name_of d =
          (strcmp-same_iff word (name_of d) clean (name-IsCString d)).0
            ((is_same_iff (strcmp word (name_of d))).0 t) in
        let hit : some d ≡ some c = rw t at e in cc
    | inr t ↦ found_name c cs (rw t at e)
  ]

  -- A word without NUL finds a command exactly if it is the name of the command.
  pub find_command_iff : (c : Handler) → (find_command word commands ≡ some c) ↔ (word ≡ name_of c)
  find_command_iff c = (found_name c commands, λ e. rw e (find_command-name_of c))

-- What a handler that only reads leaves.
abbrev pub Leaves : Kheap → Option (Outcome × Kheap) → Type 0
Leaves h r = (o : Outcome) × (r ≡ some (o, h))

-- For `memdump`, the length is one for which its counter does not wrap, and there is fuel for the rows.
abbrev pub DumpFits : ℕ → Handler → List (List ℕ) → Type 0
DumpFits fuel c argv =
    (name arg : List ℕ) (args : List (List ℕ)) (n : ℕ)
    → c ≡ memdump
    → argv ≡ name ∷ arg ∷ args
    → length_of_args args ≡ some n
    → Fits fuel n
