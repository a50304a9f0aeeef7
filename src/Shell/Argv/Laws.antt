-- ===== src/Shell/Argv/Laws.antt =====
-- The arguments in the buffer are those that the list of the words has.
use solace_os.Base.{
  ℕ, zero, suc, ◌+◌, ◌<◌, ◌≡◌, refl, ◌∙◌, Option, none, some, List, [], ◌∷◌, arith,
}
use solace_os.Text.{strlen, strtok, strtok_skip}
use solace_os.Text.Buffer.{strtok_at}
use solace_os.Text.Buffer.Laws.{Holds, Holds-agree, Left, Matches, strtok_from-Matches}
use solace_os.Shell.Line.{max_cmd_len, max_args, space, read_args, parse_args}
use solace_os.Shell.Argv.{read_args_at, parse_args_at}

-- The strings stand at the pointers.
abbrev pub AllHold : (ℕ → ℕ) → List ℕ → List (List ℕ) → Type 0
AllHold mem [] [] = Unit {0}
AllHold mem (p ∷ ps) (w ∷ ws) = Holds mem p w × AllHold mem ps ws
AllHold mem [] (w ∷ ws) = ⊥
AllHold mem (p ∷ ps) [] = ⊥

-- What the loop leaves: `argv`, with every argument still in place, and the memory below `k` as it was.
abbrev pub Parsed : Option (List ℕ × (ℕ → ℕ)) → List (List ℕ) → ℕ → (ℕ → ℕ) → Type 0
Parsed o words k mem =
    (argv : List ℕ) × (mem' : ℕ → ℕ) × (o ≡ some (argv, mem'))
    × AllHold mem' argv words
    × ((a : ℕ) → a < k → mem' a ≡ mem a)

-- A call with NULL, behind a token that ends at `stop`.
next-Matches :
    (stop : ℕ) (last : Option (List ℕ)) (q : Option ℕ) (mem : ℕ → ℕ)
    → Left max_cmd_len stop last q mem
    → (r : Option ℕ × Option ℕ × (ℕ → ℕ)) × (strtok_at max_cmd_len none space q mem ≡ some r)
      × Matches max_cmd_len (stop + 1) (strtok none space last) r
      × ((a : ℕ) → a < stop + 1 → r.2 a ≡ mem a)
unfolding strtok_at strtok
next-Matches stop none none mem k = ((none, none, mem), refl, tt, λ a l. refl)
next-Matches stop none (some q) mem k = elim k [ ]
next-Matches stop (some s) none mem k = elim k [ ]
next-Matches stop (some s) (some q) mem k =
    strtok_from-Matches max_cmd_len (stop + 1) q space s mem (omega (arith, k.0)) (k.1) (k.2)

read_args_at-Parsed :
    (n k : ℕ) (r : Option (List ℕ) × Option (List ℕ)) (o : Option ℕ × Option ℕ × (ℕ → ℕ))
    → Matches max_cmd_len k r o
    → Parsed (read_args_at n o) (read_args n r) k (o.2)
unfolding read_args_at read_args
read_args_at-Parsed zero k r (p, q, mem) m = ([], mem, refl, tt, λ a l. refl)
read_args_at-Parsed (suc n) k (none, last) (none, q, mem) m = ([], mem, refl, tt, λ a l. refl)
read_args_at-Parsed (suc n) k (none, last) (some p, q, mem) m = elim m [ ]
read_args_at-Parsed (suc n) k (some w, last) (none, q, mem) m = elim m [ ]
read_args_at-Parsed (suc n) k (some w, last) (some p, q, mem) m =
    let stop = p + strlen w in
    let next = next-Matches stop last q mem (m.2) in
    let (r, e, matches, kept) = next in
    let rest = read_args_at-Parsed n (stop + 1) (strtok none space last) r matches in
    let (argv, mem', f, hold, kept') = rest in
    (
      p ∷ argv,
      mem',
      rw (read_args_at, e, f) refl,
      (
        Holds-agree p w mem mem' (λ a l u. kept' a (omega (arith, u)) ∙ kept a (omega (arith, u)))
            (m.1),
        hold,
      ),
      λ a l. kept' a (omega (arith, l, m.0)) ∙ kept a (omega (arith, l, m.0)),
    )

-- For a line of less than 128 bytes in the buffer, the loop over `strtok` comes to an end, and when all its
-- NULs are written every pointer of `argv` points to the argument that the list of the words has there: none
-- is overwritten by the calls for those that follow. The memory below the buffer is as it was.
pub parse_args_at-Parsed :
    (cmd_buffer : ℕ) (line : List ℕ) (last : Option ℕ) (last' : Option (List ℕ)) (mem : ℕ → ℕ)
    → strlen line < max_cmd_len
    → Holds mem cmd_buffer line
    → Parsed (parse_args_at cmd_buffer last mem) (parse_args line last') cmd_buffer mem
unfolding parse_args_at parse_args strtok_at strtok
parse_args_at-Parsed cmd_buffer line last last' mem short h =
    let first =
      strtok_from-Matches max_cmd_len cmd_buffer cmd_buffer space line mem (omega arith) short h in
    let (r, e, matches, kept) = first in
    let rest = read_args_at-Parsed max_args cmd_buffer (strtok_skip line space) r matches in
    let (argv, mem', f, hold, kept') = rest in
    (argv, mem', rw (parse_args_at, strtok_at, e, f) refl, hold, λ a l. kept' a l ∙ kept a l)
