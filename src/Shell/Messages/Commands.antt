-- ===== src/Shell/Messages/Commands.antt =====
-- The messages of `memdump`, `peek` and `poke` fit their formats.
use solace_os.Base.{
  ℕ, ◌%◌, ◌≡◌, refl, inl, inr, Bool, true, false, not, ◌&&◌, some, List, [], ◌∷◌, ◌==◌,
  if◌then◌else◌, ltb, add64, sub64, Bool-cases, Option-cases, codes,
}
use solace_os.Text.{strlen, first_byte, advance}
use solace_os.Console.{Call, call, word, text, skip_flags, skip_width, read_modifier}
use solace_os.Console.Check.{is_typed, all_typed}
use solace_os.Heap.{Kheap}
use solace_os.Shell.Address.{is_address_valid}
use solace_os.Shell.Commands.{load, highest_of, memory_of, number, size_of_args, length_of_args}
use solace_os.Shell.Messages.{
  rows, rows_within, memdump_at_messages, memdump_messages, bad_size_message, out_of_ram_message,
  alignment_message, value_message, peek_messages, poke_messages, bad_address_message,
}
use solace_os.Console.Check.{all_typed-nil, all_typed-cons, all_typed-append}
use solace_os.Shell.Messages.Laws.{AllTyped, TypedTrace, rows-AllTyped, rows_within-typed}

-- The single messages.
module _ (arg : List ℕ) (addr n v : ℕ) where
  pub single-typed :
      (all_typed (bad_address_message arg) ≡ true)
      × (all_typed (call (codes "Error: Invalid length format '%s'\n") (text (some arg) ∷ []) ∷ [])
          ≡ true)
      × (all_typed (call (codes "Error: Invalid value format '%s'\n") (text (some arg) ∷ []) ∷ [])
          ≡ true)
      × (all_typed (out_of_ram_message addr n) ≡ true)
      × (all_typed (
            call
              (codes "Error: Address range 0x%llx - 0x%llx is not within valid RAM.\n")
              (word addr ∷ word v ∷ [])
            ∷ [])
          ≡ true)
      × (all_typed
            (call (codes "Memory dump from 0x%llx (length %zu):\n") (word addr ∷ word n ∷ []) ∷ [])
          ≡ true)
      × (all_typed (call (codes "Peek at 0x%llx (size %zu): ") (word addr ∷ word n ∷ []) ∷ [])
          ≡ true)
      × (all_typed (
            call
              (codes "Poke at 0x%llx (size %zu) with value 0x%llx\n")
              (word addr ∷ word n ∷ word v ∷ [])
            ∷ [])
          ≡ true)
  unfolding all_typed is_typed skip_flags skip_width read_modifier first_byte advance
  single-typed = (refl, refl, refl, refl, refl, refl, refl, refl)

usage-typed :
    (all_typed (call (codes "Usage: memdump <address> [length]\n") [] ∷ []) ≡ true)
    × (all_typed (call (codes "Usage: peek <address> [size: b/h/w/d (default: d)]\n") [] ∷ [])
        ≡ true)
    × (all_typed
          (call (codes "Usage: poke <address> <value> [size: b/h/w/d (default: d)]\n") [] ∷ [])
        ≡ true)
unfolding all_typed is_typed skip_flags skip_width read_modifier first_byte advance
usage-typed = (refl, refl, refl)

size_cases-typed :
    (b : Bool) (arg : List ℕ) (c : ℕ)
    → all_typed (
        if not b
        then call (codes "Error: Invalid size format '%s'\n") (text (some arg) ∷ []) ∷ []
        else call (codes "Error: Invalid size '%c'. Use b, h, w, or d.\n") (word c ∷ []) ∷ [])
      ≡ true
unfolding all_typed is_typed skip_flags skip_width read_modifier first_byte advance
size_cases-typed true arg c = refl
size_cases-typed false arg c = refl

bad_size-typed : (args : List (List ℕ)) → all_typed (bad_size_message args) ≡ true
unfolding bad_size_message
bad_size-typed [] = all_typed-nil
bad_size-typed (arg ∷ args) = size_cases-typed (strlen arg == 1) arg (first_byte arg)

alignment-typed : (addr n : ℕ) → all_typed (alignment_message addr n) ≡ true
unfolding alignment_message all_typed is_typed skip_flags skip_width read_modifier first_byte
    advance
alignment-typed addr n = elim (Bool-cases (ltb 1 n && not (addr % n == 0))) [
  | inl e ↦ rw e refl
  | inr e ↦ rw e refl
]

value-typed : (n v : ℕ) → all_typed (value_message n v ∷ []) ≡ true
unfolding value_message all_typed is_typed skip_flags skip_width read_modifier first_byte advance
value-typed n v = elim (Bool-cases (n == 1)) [
  | inl e ↦ rw e refl
  | inr e ↦ elim (Bool-cases (n == 2)) [
    | inl f ↦ rw (e, f) refl
    | inr f ↦ elim (Bool-cases (n == 4)) [ inl g ↦ rw (e, f, g) refl | inr g ↦ rw (e, f, g) refl ]
  ]
]

module _ (h : Kheap) where
  memdump_at-TypedTrace :
      (fuel addr : ℕ) (args : List (List ℕ)) → TypedTrace (memdump_at_messages fuel addr args h)
  unfolding memdump_at_messages length_of_args
  memdump_at-TypedTrace fuel addr args = elim (Option-cases (length_of_args args)) [
    | inl e ↦ rw (memdump_at_messages, e) (length-refused args)
    | inr (n, e) ↦ elim (Bool-cases (n == 0)) [
      | inl z ↦ rw (memdump_at_messages, e, z) all_typed-nil
      | inr z ↦ elim (Bool-cases (is_address_valid (highest_of h) addr n)) [
        | inr f ↦
            rw (memdump_at_messages, e, z, f) (single-typed [] addr n (sub64 (add64 addr n) 1)).4
        | inl f ↦ elim (Option-cases (rows fuel 0 n addr (memory_of h))) [
          | inl g ↦
              rw (memdump_at_messages, e, z, f, g)
                (all_typed-cons _ (rows_within fuel 0 n addr (memory_of h))
                  (single-typed [] addr n 0).5 (rows_within-typed n addr (memory_of h) fuel 0))
          | inr (calls, g) ↦
              let k : AllTyped (some calls) = rw g at (rows-AllTyped n addr (memory_of h) fuel 0) in
              rw (memdump_at_messages, e, z, f, g)
                (all_typed-cons _ calls (single-typed [] addr n 0).5 k)
        ]
      ]
    ]
  ]
    where
      length-refused :
          (bs : List (List ℕ))
          → all_typed (elim bs as (λ _. List Call) [
            | [] ↦ []
            | arg ∷ more ↦
                call (codes "Error: Invalid length format '%s'\n") (text (some arg) ∷ []) ∷ []
          ])
            ≡ true
      length-refused [] = all_typed-nil
      length-refused (a ∷ bs) = (single-typed a 0 0 0).1

  pub memdump-TypedTrace :
      (fuel : ℕ) (argv : List (List ℕ)) → TypedTrace (memdump_messages fuel argv h)
  unfolding memdump_messages
  memdump-TypedTrace fuel [] = usage-typed.0
  memdump-TypedTrace fuel (a ∷ []) = usage-typed.0
  memdump-TypedTrace fuel (a ∷ b ∷ args) = elim (Option-cases (number b)) [
    | inl e ↦ rw (memdump_messages, e) ((single-typed b 0 0 0).0)
    | inr (addr, e) ↦ rw (memdump_messages, e) (memdump_at-TypedTrace fuel addr args)
  ]

  pub peek-typed : (argv : List (List ℕ)) → all_typed (peek_messages argv h) ≡ true
  unfolding peek_messages
  peek-typed [] = usage-typed.1
  peek-typed (a ∷ []) = usage-typed.1
  peek-typed (a ∷ b ∷ args) = elim (Option-cases (number b)) [
    | inl e ↦ rw (peek_messages, e) ((single-typed b 0 0 0).0)
    | inr (addr, e) ↦ elim (Option-cases (size_of_args args)) [
      | inl f ↦ rw (peek_messages, e, f) (bad_size-typed args)
      | inr (n, f) ↦ elim (Bool-cases (is_address_valid (highest_of h) addr n)) [
        | inr g ↦ rw (peek_messages, e, f, g) ((single-typed [] addr n 0).3)
        | inl g ↦
            rw (peek_messages, e, f, g)
              (all_typed-append _ _ (alignment-typed addr n) (
                all_typed-cons _ _ (single-typed [] addr n 0).6
                  (value-typed n (load n addr (memory_of h)))))
      ]
    ]
  ]

  pub poke-typed : (argv : List (List ℕ)) → all_typed (poke_messages argv h) ≡ true
  unfolding poke_messages
  poke-typed [] = usage-typed.2
  poke-typed (a ∷ []) = usage-typed.2
  poke-typed (a ∷ b ∷ []) = usage-typed.2
  poke-typed (a ∷ b ∷ c ∷ args) = elim (Option-cases (number b)) [
    | inl e ↦ rw (poke_messages, e) ((single-typed b 0 0 0).0)
    | inr (addr, e) ↦ elim (Option-cases (number c)) [
      | inl v ↦ rw (poke_messages, e, v) ((single-typed c 0 0 0).2)
      | inr (value, v) ↦ elim (Option-cases (size_of_args args)) [
        | inl f ↦ rw (poke_messages, e, v, f) (bad_size-typed args)
        | inr (n, f) ↦ elim (Bool-cases (is_address_valid (highest_of h) addr n)) [
          | inr g ↦ rw (poke_messages, e, v, f, g) ((single-typed [] addr n 0).3)
          | inl g ↦
              rw (poke_messages, e, v, f, g)
                (all_typed-append _ _ (alignment-typed addr n) (single-typed [] addr n value).7)
        ]
      ]
    ]
  ]
