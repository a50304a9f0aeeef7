-- ===== src/Shell/Transcript/Laws.antt =====
-- Every call of `kprintf` in a session of the shell fits its format.
use solace_os.Base.{
  ℕ, zero, suc, ◌≡◌, refl, inl, inr, true, ◌&&◌, ◌||◌, Option, none, some, List, [], ◌∷◌, ◌++◌, ◌-◌,
  ◌==◌, ltb, leb, codes, length, Bool-cases, Option-cases,
}
use solace_os.Text.{strcmp, first_byte, advance}
use solace_os.Console.{Call, call, word, text, skip_flags, skip_width, read_modifier}
use solace_os.Console.Check.{is_typed, all_typed}
use solace_os.Exceptions.Laws.{sync-typed}
use solace_os.Heap.{Kheap, kmalloc}
use solace_os.Heap.Messages.Laws.{kmalloc_messages-typed, kfree_messages-typed}
use solace_os.Shell.Line.{max_cmd_len, read_byte, read_line, parse_args}
use solace_os.Shell.Commands.{number}
use solace_os.Shell.Dispatch.{
  Handler, help, memdump, peek, poke, alloc, free, pmm_info, is_same, exit_name, find_command,
  commands, Outcome, idle, exited, helped, unknown_command, replied, run_command,
}
use solace_os.Console.Check.{all_typed-nil, all_typed-cons, all_typed-append}
use solace_os.Shell.Messages.{Trace, finished, cut}
use solace_os.Shell.Transcript.{Round}
use solace_os.Shell.Messages.Laws.{TypedTrace}
use solace_os.Shell.Messages.Commands.{single-typed, memdump-TypedTrace, peek-typed, poke-typed}
use solace_os.Shell.Transcript.{
  bad_size_number_message, alloc_messages, free_messages, help_messages, pmm_info_messages,
  handler_messages, command_messages, echo_byte, echo, before, after_command, svc_messages,
  loop_messages, shell_messages,
}

-- The single messages.
module _ (arg : List ℕ) (m n : ℕ) where
  short-typed :
      (all_typed (bad_size_number_message arg) ≡ true)
      × (all_typed (call (codes "Allocation failed!\n") [] ∷ []) ≡ true)
      × (all_typed (call (codes "Allocated %zu bytes at 0x%p\n") (word m ∷ word n ∷ []) ∷ [])
          ≡ true)
      × (all_typed (call (codes "Usage: alloc <size>\n") [] ∷ []) ≡ true)
      × (all_typed (call (codes "Freeing memory at 0x%p\n") (word m ∷ []) ∷ []) ≡ true)
      × (all_typed (call (codes "Usage: free <address>\n") [] ∷ []) ≡ true)
      × (all_typed (call (codes "Exiting shell.\n") [] ∷ []) ≡ true)
      × (all_typed (call (codes "Unknown command: %s\n") (text (some arg) ∷ []) ∷ []) ≡ true)
      × (all_typed (call (codes "\n") [] ∷ []) ≡ true)
      × (all_typed (call (codes "\u{8} \u{8}") [] ∷ []) ≡ true)
      × (all_typed (call (codes "%c") (word m ∷ []) ∷ []) ≡ true)
      × (all_typed (call (codes "\n> ") [] ∷ []) ≡ true)
      × (all_typed (
            call (codes "\nSolaceOS Shell\n") []
            ∷ call (codes "Type 'help' for available commands.\n") []
            ∷ [])
          ≡ true)
  unfolding all_typed is_typed skip_flags skip_width read_modifier first_byte advance
  short-typed = (refl, refl, refl, refl, refl, refl, refl, refl, refl, refl, refl, refl, refl)

module _ (h : Kheap) where
  alloc-TypedTrace : (fuel : ℕ) (argv : List (List ℕ)) → TypedTrace (alloc_messages fuel argv h)
  unfolding alloc_messages
  alloc-TypedTrace fuel [] = (short-typed [] 0 0).3
  alloc-TypedTrace fuel (a ∷ []) = (short-typed [] 0 0).3
  alloc-TypedTrace fuel (a ∷ b ∷ args) = elim (Option-cases (number b)) [
    | inl e ↦ rw (alloc_messages, e) ((short-typed b 0 0).0)
    | inr (size, e) ↦ elim (Bool-cases (size == 0)) [
      | inl z ↦ rw (alloc_messages, e, z) ((short-typed b 0 0).0)
      | inr z ↦ elim (Option-cases (kmalloc fuel size h)) [
        | inl f ↦ rw (alloc_messages, e, z, f) (kmalloc_messages-typed fuel size h)
        | inr ((ptr, g), f) ↦ elim (Bool-cases (ptr == 0)) [
          | inl q ↦
              rw (alloc_messages, e, z, f, q)
                (all_typed-append _ _ (kmalloc_messages-typed fuel size h) ((short-typed [] 0 0).1))
          | inr q ↦
              rw (alloc_messages, e, z, f, q)
                (all_typed-append _ _ (kmalloc_messages-typed fuel size h)
                  ((short-typed [] size ptr).2))
        ]
      ]
    ]
  ]

  free-typed : (argv : List (List ℕ)) → all_typed (free_messages argv h) ≡ true
  unfolding free_messages
  free-typed [] = (short-typed [] 0 0).5
  free-typed (a ∷ []) = (short-typed [] 0 0).5
  free-typed (a ∷ b ∷ args) = elim (Option-cases (number b)) [
    | inl e ↦ rw (free_messages, e) ((single-typed b 0 0 0).0)
    | inr (addr, e) ↦
        rw (free_messages, e)
          (all_typed-cons _ _ ((short-typed [] addr 0).4) (kfree_messages-typed addr h))
  ]

  list-typed : (all_typed help_messages ≡ true) × (all_typed (pmm_info_messages h) ≡ true)
  unfolding help_messages pmm_info_messages all_typed is_typed skip_flags skip_width read_modifier
      first_byte advance
  list-typed = (refl, refl)

  handler-TypedTrace :
      (fuel : ℕ) (c : Handler) (argv : List (List ℕ)) → TypedTrace (handler_messages fuel c argv h)
  unfolding handler_messages
  handler-TypedTrace fuel help argv = list-typed.0
  handler-TypedTrace fuel memdump argv = memdump-TypedTrace h fuel argv
  handler-TypedTrace fuel peek argv = peek-typed h argv
  handler-TypedTrace fuel poke argv = poke-typed h argv
  handler-TypedTrace fuel alloc argv = alloc-TypedTrace fuel argv
  handler-TypedTrace fuel free argv = free-typed argv
  handler-TypedTrace fuel pmm_info argv = list-typed.1

  command-TypedTrace : (fuel : ℕ) (argv : List (List ℕ)) → TypedTrace (command_messages fuel argv h)
  unfolding command_messages
  command-TypedTrace fuel [] = all_typed-nil
  command-TypedTrace fuel (name ∷ args) = elim (Bool-cases (is_same (strcmp name exit_name))) [
    | inl e ↦ rw e ((short-typed [] 0 0).6)
    | inr e ↦ elim (Option-cases (find_command name commands)) [
      | inl f ↦ rw (command_messages, e, f) ((short-typed name 0 0).7)
      | inr (c, f) ↦ rw (command_messages, e, f) (handler-TypedTrace fuel c (name ∷ args))
    ]
  ]

echo_byte-typed : (c : ℕ) (line : List ℕ) → all_typed (echo_byte c line) ≡ true
unfolding echo_byte
echo_byte-typed c line = elim (Bool-cases ((c == 13) || (c == 10))) [
  | inl e ↦ rw e ((short-typed [] 0 0).8)
  | inr e ↦ elim (Bool-cases ((c == 8) || (c == 127))) [
    | inl f ↦ elim (Bool-cases (ltb 0 (length line))) [
      | inl g ↦ rw (e, f, g) ((short-typed [] 0 0).9)
      | inr g ↦ rw (e, f, g) all_typed-nil
    ]
    | inr f ↦ elim (Bool-cases (leb 32 c && leb c 126)) [
      | inl g ↦ rw (e, f, g) ((short-typed [] c 0).10)
      | inr g ↦ rw (e, f, g) all_typed-nil
    ]
  ]
]

echo-typed : (input line : List ℕ) → all_typed (echo input line) ≡ true
unfolding echo
echo-typed [] line = all_typed-nil
echo-typed (c ∷ input) line = elim (Bool-cases (ltb (length line) (max_cmd_len - 1))) [
  | inr e ↦ rw (echo, e) all_typed-nil
  | inl e ↦ elim (Option-cases (read_byte c line)) [
    | inl f ↦ rw (echo, e, f) (all_typed-append _ _ (echo_byte-typed c line) all_typed-nil)
    | inr (line', f) ↦
        rw (echo, e, f) (all_typed-append _ _ (echo_byte-typed c line) (echo-typed input line'))
  ]
]

pub before-TypedTrace :
    (calls : List Call) (t : Trace)
    → all_typed calls ≡ true
    → TypedTrace t
    → TypedTrace (before calls t)
before-TypedTrace calls (finished more) p q = all_typed-append calls more p q
before-TypedTrace calls (cut more) p q = all_typed-append calls more p q

after-TypedTrace :
    (next : Kheap → Trace) (o : Option (Outcome × Kheap))
    → ((g : Kheap) → TypedTrace (next g))
    → TypedTrace (after_command next o)
unfolding after_command
after-TypedTrace next none n = all_typed-nil
after-TypedTrace next (some (exited, g)) n = all_typed-nil
after-TypedTrace next (some (idle, g)) n = n g
after-TypedTrace next (some (helped, g)) n = n g
after-TypedTrace next (some (unknown_command, g)) n = n g
after-TypedTrace next (some (replied r, g)) n = n g

-- The call behind the `svc` of every round fits its format.
abbrev pub Fitting : (ℕ → Round) → Type 0
Fitting r = (n : ℕ) → all_typed ((r n).behind_svc ∷ []) ≡ true

module _ (r : ℕ → Round) where
  -- What a round does with the line.
  module _ (rounds fuel : ℕ) (last : Option (List ℕ))
      (next-TypedTrace : (rest : List ℕ) (g : Kheap)
        → TypedTrace (loop_messages r rounds fuel last rest g)) where
    run-TypedTrace :
        (c : ℕ) (cs rest : List ℕ) (h : Kheap) (t : Trace)
        → TypedTrace t
        → TypedTrace (elim t as (λ _. Trace) [
          | cut calls ↦ cut calls
          | finished calls ↦ before calls (
              after_command
                (λ g. loop_messages r rounds fuel last rest g)
                (run_command fuel (parse_args (c ∷ cs) last) h))
        ])
    run-TypedTrace c cs rest h (cut calls) k = k
    run-TypedTrace c cs rest h (finished calls) k = before-TypedTrace calls _ k (
        after-TypedTrace (λ g. loop_messages r rounds fuel last rest g)
          (run_command fuel (parse_args (c ∷ cs) last) h) (λ g. next-TypedTrace rest g))

    line-TypedTrace :
        (h : Kheap) (o : Option (List ℕ × List ℕ))
        → TypedTrace (elim o as (λ _. Trace) [
          | none ↦ cut []
          | some (line, rest) ↦ elim line as (λ _. Trace) [
            | [] ↦ loop_messages r rounds fuel last rest h
            | c ∷ cs ↦ elim (command_messages fuel (parse_args (c ∷ cs) last) h) as (λ _. Trace) [
              | cut calls ↦ cut calls
              | finished calls ↦ before calls (
                  after_command
                    (λ g. loop_messages r rounds fuel last rest g)
                    (run_command fuel (parse_args (c ∷ cs) last) h))
            ]
          ]
        ])
    line-TypedTrace h none = all_typed-nil
    line-TypedTrace h (some ([], rest)) = next-TypedTrace rest h
    line-TypedTrace h (some (c ∷ cs, rest)) =
        run-TypedTrace c cs rest h (command_messages fuel (parse_args (c ∷ cs) last) h)
          (command-TypedTrace h fuel (parse_args (c ∷ cs) last))

  loop-TypedTrace :
      (rounds fuel : ℕ) (last : Option (List ℕ)) (input : List ℕ) (h : Kheap)
      → Fitting r
      → TypedTrace (loop_messages r rounds fuel last input h)
  unfolding loop_messages svc_messages
  loop-TypedTrace zero fuel last input h fits = all_typed-nil
  loop-TypedTrace (suc rounds) fuel last input h fits =
      before-TypedTrace
        (svc_messages ((r rounds).saved)
          ++ ((r rounds).behind_svc ∷ call (codes "\n> ") [] ∷ echo input []))
        _
        (all_typed-append _ _ (sync-typed 0x5600_0000 0 ((r rounds).saved)) (
          all_typed-cons _ _ (fits rounds)
            (all_typed-cons _ _ ((short-typed [] 0 0).11) (echo-typed input []))))
        (line-TypedTrace rounds fuel last (λ rest g. loop-TypedTrace rounds fuel last rest g fits) h
          (read_line input []))

  pub shell_messages-TypedTrace :
      (rounds fuel : ℕ) (input : List ℕ) (h : Kheap)
      → Fitting r
      → TypedTrace (shell_messages r rounds fuel input h)
  unfolding shell_messages
  shell_messages-TypedTrace rounds fuel input h fits =
      before-TypedTrace _ (loop_messages r rounds fuel none input h) ((short-typed [] 0 0).12)
        (loop-TypedTrace rounds fuel none input h fits)
