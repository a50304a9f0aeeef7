-- ===== src/Text/Tests.antt =====
-- The string functions on short strings.
use solace_os.Base.{ℕ, ◌≡◌, ◌↔◌, refl, none, some, List, [], ◌∷◌, arith}
use solace_os.Text.{below, same, above, strcmp, strncmp, strspn, strpbrk, strtok, prefix_of}
use solace_os.Text.Laws.{strcmp-same_iff, strncmp-eq-strcmp}
use solace_os.Text.Tokens.{rest_words, result_words, strtok-words}

-- `peek`, `peel` and `pe`
abbrev peek : List ℕ
peek = b'p' ∷ b'e' ∷ b'e' ∷ b'k' ∷ []

abbrev peel : List ℕ
peel = b'p' ∷ b'e' ∷ b'e' ∷ b'l' ∷ []

abbrev spaced : List ℕ
spaced = 32 ∷ 32 ∷ b'a' ∷ b'b' ∷ 32 ∷ b'c' ∷ []

strcmp-same_iff_example : (strcmp peek peel ≡ same) ↔ (peek ≡ peel)
strcmp-same_iff_example =
    strcmp-same_iff peek peel (omega arith, (omega arith, (omega arith, (omega arith, tt))))
      (omega arith, (omega arith, (omega arith, (omega arith, tt))))

strncmp-eq-strcmp_example : strncmp peek peel 3 ≡ strcmp (prefix_of 3 peek) (prefix_of 3 peel)
strncmp-eq-strcmp_example = strncmp-eq-strcmp peek peel 3

strtok-words_example :
    rest_words (32 ∷ []) (some spaced)
    ≡ result_words (32 ∷ []) (strtok (some spaced) (32 ∷ []) none)
strtok-words_example = strtok-words (32 ∷ []) (some spaced) none

strcmp_run :
    (strcmp peek peel ≡ below 1) × (strcmp peel peek ≡ above 1) × (strncmp peek peel 3 ≡ same)
unfolding strcmp strncmp solace_os.Text.difference
strcmp_run = (refl, refl, refl)

strtok_run :
    (strtok (some spaced) (32 ∷ []) none ≡ (some (b'a' ∷ b'b' ∷ []), some (b'c' ∷ [])))
    × (strtok none (32 ∷ []) (some (b'c' ∷ [])) ≡ (some (b'c' ∷ []), none))
    × (strtok none (32 ∷ []) none ≡ (none, none))
unfolding strtok strspn strpbrk solace_os.Text.strlen
strtok_run = (refl, refl, refl)

strspn_run : (strspn spaced (32 ∷ []) ≡ 2) × (strpbrk peek (32 ∷ []) ≡ none)
unfolding strspn strpbrk
strspn_run = (refl, refl)
